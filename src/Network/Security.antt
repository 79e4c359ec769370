-- ===== src/Network/Security.antt =====
-- How a Wi-Fi network's security is classified: network/nm/utils.cpp (`deviceSupportsApCiphers`,
-- `securityIsValid`, `findBestWirelessSecurity`) over the enums of network/enums.hpp and
-- network/nm/enums.hpp. The flag words of D-Bus are numbers, and `has` is `flags & mask`.
pub mod Caps
pub mod ApFlags
pub mod ApSecurity
pub mod Best
use mcs_qs.Prelude.{ℕ, zero, suc, ◌+◌, Bool, true, false, ◌&&◌, ◌||◌, not, if◌then◌else◌, has, any}
use Caps
use ApFlags
use ApSecurity

-- The enumerators in the source's order, which is the order of preference.
pub data WifiSecurityType : Type 0 where
  wpa3_suite_b192 sae wpa2_eap wpa2_psk wpa_eap wpa_psk : WifiSecurityType
  static_wep dynamic_wep leap owe open_net unknown : WifiSecurityType

-- The value of an enumerator.
unfoldable pub value_of : WifiSecurityType → ℕ
value_of wpa3_suite_b192 = 0
value_of sae = 1
value_of wpa2_eap = 2
value_of wpa2_psk = 3
value_of wpa_eap = 4
value_of wpa_psk = 5
value_of static_wep = 6
value_of dynamic_wep = 7
value_of leap = 8
value_of owe = 9
value_of open_net = 10
value_of unknown = 11

-- `static_cast<WifiSecurityType::Enum>(i)`, used for 0 to 10 only.
unfoldable pub of_value : ℕ → WifiSecurityType
of_value zero = wpa3_suite_b192
of_value (suc zero) = sae
of_value (suc (suc zero)) = wpa2_eap
of_value (suc (suc (suc zero))) = wpa2_psk
of_value (suc (suc (suc (suc zero)))) = wpa_eap
of_value (suc (suc (suc (suc (suc zero))))) = wpa_psk
of_value (suc (suc (suc (suc (suc (suc zero)))))) = static_wep
of_value (suc (suc (suc (suc (suc (suc (suc zero))))))) = dynamic_wep
of_value (suc (suc (suc (suc (suc (suc (suc (suc zero)))))))) = leap
of_value (suc (suc (suc (suc (suc (suc (suc (suc (suc zero))))))))) = owe
of_value (suc (suc (suc (suc (suc (suc (suc (suc (suc (suc zero)))))))))) = open_net
of_value _ = unknown

abbrev pub is_static_wep : WifiSecurityType → Bool
is_static_wep static_wep = true
is_static_wep _ = false

-- A pairwise cipher that the device and the access point share; static WEP needs none.
unfoldable pub have_pair : ℕ → ℕ → WifiSecurityType → Bool
have_pair caps ap type =
    is_static_wep type
    || (has caps Caps.cipher_wep40 && has ap ApSecurity.pair_wep40)
    || (has caps Caps.cipher_wep104 && has ap ApSecurity.pair_wep104)
    || (has caps Caps.cipher_tkip && has ap ApSecurity.pair_tkip)
    || (has caps Caps.cipher_ccmp && has ap ApSecurity.pair_ccmp)

-- A group cipher that they share; static WEP may use a WEP cipher only.
unfoldable pub have_group : ℕ → ℕ → WifiSecurityType → Bool
have_group caps ap type =
    (has caps Caps.cipher_wep40 && has ap ApSecurity.group_wep40)
    || (has caps Caps.cipher_wep104 && has ap ApSecurity.group_wep104)
    || (not (is_static_wep type)
        && ((has caps Caps.cipher_tkip && has ap ApSecurity.group_tkip)
            || (has caps Caps.cipher_ccmp && has ap ApSecurity.group_ccmp)))

unfoldable pub device_supports_ap_ciphers : ℕ → ℕ → WifiSecurityType → Bool
device_supports_ap_ciphers caps ap type = have_pair caps ap type && have_group caps ap type

-- The pairwise test that the pre-shared key types make inline.
unfoldable pub pair_tkip_or_ccmp : ℕ → ℕ → Bool
pair_tkip_or_ccmp caps ap =
    (has ap ApSecurity.pair_tkip && has caps Caps.cipher_tkip)
    || (has ap ApSecurity.pair_ccmp && has caps Caps.cipher_ccmp)

-- The case of `StaticWep`, into which `Leap` falls through.
unfoldable pub static_wep_is_valid : ℕ → ℕ → ℕ → ℕ → Bool
static_wep_is_valid caps flags wpa rsn =
    if not (has flags ApFlags.privacy)
    then false
    else if any wpa || any rsn
    then device_supports_ap_ciphers caps wpa static_wep
      || device_supports_ap_ciphers caps rsn static_wep
    else true

-- The cases of `Wpa2Psk` and `Sae`, which differ in the key management flag alone.
unfoldable pub rsn_is_valid : ℕ → ℕ → Bool → ℕ → Bool
rsn_is_valid key_mgmt caps adhoc rsn =
    if not (has caps Caps.rsn)
    then false
    else if adhoc
    then has caps Caps.ibss_rsn && has rsn ApSecurity.pair_ccmp && has caps Caps.cipher_ccmp
    else has rsn key_mgmt && pair_tkip_or_ccmp caps rsn

unfoldable pub security_is_valid : WifiSecurityType → ℕ → Bool → ℕ → ℕ → ℕ → Bool
security_is_valid open_net caps adhoc flags wpa rsn =
    if has flags ApFlags.privacy then false else if any wpa || any rsn then false else true
security_is_valid leap caps adhoc flags wpa rsn =
    if adhoc then false else static_wep_is_valid caps flags wpa rsn
security_is_valid static_wep caps adhoc flags wpa rsn = static_wep_is_valid caps flags wpa rsn
security_is_valid dynamic_wep caps adhoc flags wpa rsn =
    if adhoc
    then false
    else if any rsn || not (has flags ApFlags.privacy)
    then false
    else if any wpa
    then has wpa ApSecurity.key_mgmt_8021x && device_supports_ap_ciphers caps wpa dynamic_wep
    else true
security_is_valid wpa_psk caps adhoc flags wpa rsn =
    if adhoc
    then false
    else if not (has caps Caps.wpa)
    then false
    else has wpa ApSecurity.key_mgmt_psk && pair_tkip_or_ccmp caps wpa
security_is_valid wpa2_psk caps adhoc flags wpa rsn =
    rsn_is_valid ApSecurity.key_mgmt_psk caps adhoc rsn
security_is_valid wpa_eap caps adhoc flags wpa rsn =
    if adhoc
    then false
    else if not (has caps Caps.wpa)
    then false
    else has wpa ApSecurity.key_mgmt_8021x && device_supports_ap_ciphers caps wpa wpa_eap
security_is_valid wpa2_eap caps adhoc flags wpa rsn =
    if adhoc
    then false
    else if not (has caps Caps.rsn)
    then false
    else has rsn ApSecurity.key_mgmt_8021x && device_supports_ap_ciphers caps rsn wpa2_eap
security_is_valid sae caps adhoc flags wpa rsn = rsn_is_valid ApSecurity.key_mgmt_sae caps adhoc rsn
security_is_valid owe caps adhoc flags wpa rsn =
    if adhoc
    then false
    else if not (has caps Caps.rsn)
    then false
    else has rsn ApSecurity.key_mgmt_owe || has rsn ApSecurity.key_mgmt_owe_tm
security_is_valid wpa3_suite_b192 caps adhoc flags wpa rsn =
    if adhoc
    then false
    else if not (has caps Caps.rsn)
    then false
    else has rsn ApSecurity.key_mgmt_eap_suite_b192
security_is_valid unknown caps adhoc flags wpa rsn = false

-- The loop's rounds left, and its `i`.
unfoldable pub find_loop : ℕ → ℕ → ℕ → Bool → ℕ → ℕ → ℕ → WifiSecurityType
find_loop zero i caps adhoc flags wpa rsn = unknown
find_loop (suc rounds) i caps adhoc flags wpa rsn =
    let rest = find_loop rounds (i + 1) caps adhoc flags wpa rsn in
    if security_is_valid (of_value i) caps adhoc flags wpa rsn then of_value i else rest

-- `i` runs from Wpa3SuiteB192 = 0 to Open = 10.
unfoldable pub find_best_wireless_security : ℕ → Bool → ℕ → ℕ → ℕ → WifiSecurityType
unfolding find_loop
find_best_wireless_security caps adhoc flags wpa rsn = find_loop 11 0 caps adhoc flags wpa rsn
