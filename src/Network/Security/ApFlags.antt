-- ===== src/Network/Security/ApFlags.antt =====
-- `NM80211ApFlags` of network/nm/enums.hpp: the flag that the classification reads.
use mcs_qs.Prelude.{ℕ}

abbrev pub privacy : ℕ
privacy = 1
