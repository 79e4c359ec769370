-- ===== src/Log/Fields.antt =====
-- The bytes that pack two numbers: the field of a new message (3 bits of type, 5 of seconds) and that
-- of a recent message (4 bits of index, 4 of seconds).
use mcs_qs.Prelude.{
  ℕ, zero, suc, ◌+◌, ◌*◌, ◌/◌, ◌%◌, ◌≤◌, ◌<◌, ◌≡◌, ◌≢◌, refl, arith, Bool, true, ◌&&◌, ◌==◌,
  bit_and, bit_or, sym, ◌∙◌,
}
use mathlib.Core.Path.{ap₂}
use mcs_qs.Log.{MsgType, fatal_msg, debug_msg, compressed_type_of, type_of_compressed}

-- The test passes at every byte from `byte` on, for a number of bytes.
passes_from : (ℕ → Bool) → (byte count : ℕ) → Bool
passes_from test byte zero = true
passes_from test byte (suc count) =
    let later = passes_from test (byte + 1) count in later && test byte

passes_at :
    (test : ℕ → Bool) (count byte x : ℕ)
    → passes_from test byte count ≡ true
    → byte ≤ x
    → x < byte + count
    → test x ≡ true
unfolding passes_from
passes_at test zero byte x h lo hi = absurd (omega arith)
passes_at test (suc count) byte x h lo hi = ground (arith, passes_at test count (byte + 1) x)

abbrev splits : ℕ → Bool
splits x =
    bit_or (x % 8) (x / 8 * 8) == x
    && bit_and x 7 == x % 8
    && bit_or (x % 16) (x / 16 * 16) == x
    && bit_and x 15 == x % 16

splits_table : passes_from splits 0 256 ≡ true
unfolding passes_from
splits_table = refl

splits_lem :
    (x : ℕ)
    → x < 256
    → (bit_or (x % 8) (x / 8 * 8) ≡ x)
      × (bit_and x 7 ≡ x % 8)
      × (bit_or (x % 16) (x / 16 * 16) ≡ x)
      × (bit_and x 15 ≡ x % 16)
splits_lem x h = ground (arith, passes_at splits 256 0 x splits_table (omega arith) h)

-- `type | seconds << 3`, and back.
pub type_field :
    (c d : ℕ) → c < 8 → d < 32 → (bit_or c (d * 8) ≡ c + d * 8) × (bit_and (c + d * 8) 7 ≡ c)
type_field c d hc hd =
    let x : ℕ = c + d * 8 in
    let r = splits_lem x (omega arith) in
    let m : x % 8 ≡ c = omega arith in
    let q : x / 8 * 8 ≡ d * 8 = omega arith in (ap₂ bit_or (sym m) (sym q) ∙ r.0, r.1 ∙ m)

-- `index | seconds << 4`, and back.
pub index_field :
    (i d : ℕ) → i < 16 → d < 16 → (bit_or i (d * 16) ≡ i + d * 16) × (bit_and (i + d * 16) 15 ≡ i)
index_field i d hi hd =
    let x : ℕ = i + d * 16 in
    let r = splits_lem x (omega arith) in
    let m : x % 16 ≡ i = omega arith in
    let q : x / 16 * 16 ≡ d * 16 = omega arith in (ap₂ bit_or (sym m) (sym q) ∙ r.2, r.3 ∙ m)

-- The type survives its compression, unless it is fatal.
pub type_of_compressed_type_of :
    (t : MsgType)
    → t ≢ fatal_msg
    → (type_of_compressed (compressed_type_of t) ≡ t) × (compressed_type_of t < 4)
unfolding type_of_compressed compressed_type_of
type_of_compressed_type_of debug_msg h = (refl, omega arith)
type_of_compressed_type_of fatal_msg h = absurd (h refl)
type_of_compressed_type_of _ h = (refl, omega arith)
