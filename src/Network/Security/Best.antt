-- ===== src/Network/Security/Best.antt =====
-- Which security type is chosen, and what a chosen type says of the network.
use mcs_qs.Prelude.{
  ℕ, zero, suc, ◌+◌, ◌≤◌, ◌<◌, ◌≡◌, ◌⊎◌, inl, inr, refl, ap, true, false, arith, Bool, has, any,
  Bool-cases,
}
use mcs_qs.Network.Security.{
  WifiSecurityType, sae, wpa2_psk, static_wep, leap, open_net, unknown, value_of, of_value,
  security_is_valid, find_loop, find_best_wireless_security, rsn_is_valid,
}
use mcs_qs.Network.Security.Caps
use mcs_qs.Network.Security.ApSecurity

value_of-lt :
    (t : WifiSecurityType) (caps : ℕ) (adhoc : Bool) (flags wpa rsn : ℕ)
    → security_is_valid t caps adhoc flags wpa rsn ≡ true
    → value_of t < 11
unfolding value_of security_is_valid
value_of-lt unknown caps adhoc flags wpa rsn h = cc
value_of-lt _ caps adhoc flags wpa rsn h = omega arith

of_value-value_of : (t : WifiSecurityType) → of_value (value_of t) ≡ t
unfolding of_value value_of
of_value-value_of leap = refl
of_value-value_of _ = refl

value_of-unknown : value_of unknown ≡ 11
unfolding value_of
value_of-unknown = refl

value_of-of_value : (i : ℕ) → i < 11 → value_of (of_value i) ≡ i
unfolding of_value value_of
value_of-of_value i h = ground arith

module _ (caps : ℕ) (adhoc : Bool) (flags wpa rsn : ℕ) where
  loop_sound :
      (rounds i : ℕ)
      → (find_loop rounds i caps adhoc flags wpa rsn ≡ unknown)
        ⊎ (security_is_valid (find_loop rounds i caps adhoc flags wpa rsn) caps adhoc flags wpa rsn
            ≡ true)
  unfolding find_loop
  loop_sound zero i = inl refl
  loop_sound (suc rounds) i =
      elim (Bool-cases (security_is_valid (of_value i) caps adhoc flags wpa rsn)) [
        | inl e ↦ rw e (inr e)
        | inr e ↦ rw e (loop_sound rounds (i + 1))
      ]

  -- The loop stops no later than at a valid type in its range.
  loop_le :
      (rounds i : ℕ) (t : WifiSecurityType)
      → i + rounds ≤ 11
      → i ≤ value_of t
      → value_of t < i + rounds
      → security_is_valid t caps adhoc flags wpa rsn ≡ true
      → value_of (find_loop rounds i caps adhoc flags wpa rsn) ≤ value_of t
  unfolding find_loop
  loop_le zero i t top lo hi v = absurd (omega arith)
  loop_le (suc rounds) i t top lo hi v =
      elim (Bool-cases (security_is_valid (of_value i) caps adhoc flags wpa rsn)) [
        | inl e ↦ rw e (omega (arith, value_of-of_value i (omega arith)))
        | inr e ↦ rw e (loop_le rounds (i + 1) t (omega arith) (past e) (omega arith) v)
      ]
    where
      past : security_is_valid (of_value i) caps adhoc flags wpa rsn ≡ false → i + 1 ≤ value_of t
      past e = ground (arith, of_value-value_of t)

-- The chosen type is `unknown`, or it is valid for the network and the device.
pub find_best_wireless_security_sound :
    (caps : ℕ) (adhoc : Bool) (flags wpa rsn : ℕ)
    → let best = find_best_wireless_security caps adhoc flags wpa rsn in
      (best ≡ unknown) ⊎ (security_is_valid best caps adhoc flags wpa rsn ≡ true)
unfolding find_best_wireless_security
find_best_wireless_security_sound caps adhoc flags wpa rsn =
    loop_sound caps adhoc flags wpa rsn 11 0

best_le :
    (caps : ℕ) (adhoc : Bool) (flags wpa rsn : ℕ) (t : WifiSecurityType)
    → security_is_valid t caps adhoc flags wpa rsn ≡ true
    → value_of (find_best_wireless_security caps adhoc flags wpa rsn) ≤ value_of t
unfolding find_best_wireless_security
best_le caps adhoc flags wpa rsn t v =
    loop_le caps adhoc flags wpa rsn 11 0 t (omega arith) (omega arith)
      (value_of-lt t caps adhoc flags wpa rsn v) v

-- If any type is valid then the chosen type is valid, and no valid type comes before it in the
-- order of preference.
pub find_best_wireless_security_optimal :
    (caps : ℕ) (adhoc : Bool) (flags wpa rsn : ℕ) (t : WifiSecurityType)
    → security_is_valid t caps adhoc flags wpa rsn ≡ true
    → let best = find_best_wireless_security caps adhoc flags wpa rsn in
      (security_is_valid best caps adhoc flags wpa rsn ≡ true) × (value_of best ≤ value_of t)
find_best_wireless_security_optimal caps adhoc flags wpa rsn t v =
    (sound (find_best_wireless_security_sound caps adhoc flags wpa rsn), lower)
  where
    best : WifiSecurityType
    best = find_best_wireless_security caps adhoc flags wpa rsn

    lower : value_of best ≤ value_of t
    lower = best_le caps adhoc flags wpa rsn t v

    sound :
        (best ≡ unknown) ⊎ (security_is_valid best caps adhoc flags wpa rsn ≡ true)
        → security_is_valid best caps adhoc flags wpa rsn ≡ true
    sound (inl e) = absurd (
        omega
          (arith, lower, ap value_of e, value_of-unknown, value_of-lt t caps adhoc flags wpa rsn v))
    sound (inr e) = e

static_wep_of_leap :
    (caps : ℕ) (adhoc : Bool) (flags wpa rsn : ℕ)
    → security_is_valid leap caps adhoc flags wpa rsn ≡ true
    → security_is_valid static_wep caps adhoc flags wpa rsn ≡ true
unfolding security_is_valid
static_wep_of_leap caps adhoc flags wpa rsn h = ground arith

adhoc_valid :
    (t : WifiSecurityType) (caps flags wpa rsn : ℕ)
    → security_is_valid t caps true flags wpa rsn ≡ true
    → (((t ≡ sae) ⊎ (t ≡ wpa2_psk))
        × (has caps Caps.ibss_rsn ≡ true)
        × (has rsn ApSecurity.pair_ccmp ≡ true)
        × (has caps Caps.cipher_ccmp ≡ true))
      ⊎ (t ≡ static_wep)
      ⊎ (t ≡ open_net)
unfolding security_is_valid rsn_is_valid
adhoc_valid t caps flags wpa rsn h = ground arith

-- No flag of the empty set is set.
no_flags :
    (has 0 ApSecurity.key_mgmt_psk ≡ false)
    × (has 0 ApSecurity.key_mgmt_8021x ≡ false)
    × (has 0 ApSecurity.key_mgmt_sae ≡ false)
    × (has 0 ApSecurity.key_mgmt_owe ≡ false)
    × (has 0 ApSecurity.key_mgmt_owe_tm ≡ false)
    × (has 0 ApSecurity.key_mgmt_eap_suite_b192 ≡ false)
    × (has 0 ApSecurity.pair_ccmp ≡ false)
    × (any 0 ≡ false)
unfolding has any
no_flags = (refl, refl, refl, refl, refl, refl, refl, refl)
