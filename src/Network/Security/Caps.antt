-- ===== src/Network/Security/Caps.antt =====
-- `NMWirelessCapabilities` of network/nm/enums.hpp.
use mcs_qs.Prelude.{ℕ}

abbrev pub cipher_wep40 : ℕ
cipher_wep40 = 1

abbrev pub cipher_wep104 : ℕ
cipher_wep104 = 2

abbrev pub cipher_tkip : ℕ
cipher_tkip = 4

abbrev pub cipher_ccmp : ℕ
cipher_ccmp = 8

abbrev pub wpa : ℕ
wpa = 16

abbrev pub rsn : ℕ
rsn = 32

abbrev pub ibss_rsn : ℕ
ibss_rsn = 8192
