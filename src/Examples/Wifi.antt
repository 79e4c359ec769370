-- ===== src/Examples/Wifi.antt =====
-- Wi-Fi networks as an access point advertises them.
use mcs_qs.Prelude.{◌≡◌, ◌≤◌, refl, true, false, has}
use mcs_qs.Network.Security.{
  value_of, security_is_valid, pair_tkip_or_ccmp, find_best_wireless_security, wpa_psk,
}
use mcs_qs.Network.Security.Best.{find_best_wireless_security_optimal}

-- A device with every capability, and a network with WPA and RSN, pre-shared keys and CCMP.
optimal_example :
    (security_is_valid
        (find_best_wireless_security 0xffff false 1 0x188 0x188)
        0xffff
        false
        1
        0x188
        0x188
      ≡ true)
    × (value_of (find_best_wireless_security 0xffff false 1 0x188 0x188) ≤ value_of wpa_psk)
unfolding security_is_valid has pair_tkip_or_ccmp
optimal_example = find_best_wireless_security_optimal 0xffff false 1 0x188 0x188 wpa_psk refl
