-- ===== src/Network/Security/ApSecurity.antt =====
-- `NM80211ApSecurityFlags` of network/nm/enums.hpp.
use mcs_qs.Prelude.{ℕ}

abbrev pub pair_wep40 : ℕ
pair_wep40 = 1

abbrev pub pair_wep104 : ℕ
pair_wep104 = 2

abbrev pub pair_tkip : ℕ
pair_tkip = 4

abbrev pub pair_ccmp : ℕ
pair_ccmp = 8

abbrev pub group_wep40 : ℕ
group_wep40 = 16

abbrev pub group_wep104 : ℕ
group_wep104 = 32

abbrev pub group_tkip : ℕ
group_tkip = 64

abbrev pub group_ccmp : ℕ
group_ccmp = 128

abbrev pub key_mgmt_psk : ℕ
key_mgmt_psk = 256

abbrev pub key_mgmt_8021x : ℕ
key_mgmt_8021x = 512

abbrev pub key_mgmt_sae : ℕ
key_mgmt_sae = 1024

abbrev pub key_mgmt_owe : ℕ
key_mgmt_owe = 2048

abbrev pub key_mgmt_owe_tm : ℕ
key_mgmt_owe_tm = 4096

abbrev pub key_mgmt_eap_suite_b192 : ℕ
key_mgmt_eap_suite_b192 = 8192
