-- ===== src/Log/Bytes.antt =====
-- `WriteBuffer`'s integers as bytes, and the variable-length integers and strings made of them.
-- The little-endian order is that of the encoder; the decoder's `memcpy` into an integer agrees with
-- it on a little-endian machine, which is the one modelled.
use mcs_qs.Prelude.{ℕ, ◌+◌, ◌*◌, ◌/◌, ◌%◌, ◌^◌, List, [], ◌∷◌, ◌++◌, length, ltb, if◌then◌else◌}

abbrev pub u8 : ℕ → List ℕ
u8 n = n % 256 ∷ []

abbrev pub u16 : ℕ → List ℕ
u16 n = n % 256 ∷ (n / 256 % 256) ∷ []

abbrev pub u32 : ℕ → List ℕ
u32 n = n % 256 ∷ (n / 2 ^ 8 % 256) ∷ (n / 2 ^ 16 % 256) ∷ (n / 2 ^ 24 % 256) ∷ []

abbrev pub u64 : ℕ → List ℕ
u64 n = u32 n ++ u32 (n / 2 ^ 32)

-- `writeVarInt`
unfoldable pub var_int : ℕ → List ℕ
var_int n =
    if ltb n 0xff
    then u8 n
    else if ltb n 0xffff
    then u8 0xff ++ u16 n
    else u8 0xff ++ (u16 0xffff ++ u32 n)

-- `writeString`; the length goes through a `quint32`.
unfoldable pub string : List ℕ → List ℕ
unfolding var_int
string bytes = var_int (length bytes % 2 ^ 32) ++ bytes

-- The integer that little-endian bytes stand for.
unfoldable pub from_le : List ℕ → ℕ
from_le [] = 0
from_le (b ∷ bs) = b + 256 * from_le bs
