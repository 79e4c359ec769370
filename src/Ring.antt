-- ===== src/Ring.antt =====
-- `RingBuffer` and `HashBuffer` of core/ringbuf.hpp. A slot is `none` while nothing is constructed in
-- it; running destructors is not modelled otherwise. `head` is -1 in an empty buffer.
pub mod Refine
pub mod Search
use mcs_qs.Prelude.{
  ℕ, zero, suc, ◌+◌, ◌%◌, Bool, false, ◌&&◌, Option, none, some, List, ◌==◌, if◌then◌else◌,
  replicate, set, get_elem?,
}
use mcs_qs.Prelude.Int.{ℤ, pos, negsuc, pos_part, sub_ℕ, ◌+ℤ◌, ◌-ℤ◌, ltb_ℤ, eqb_ℤ}

pub record Ring {ℓ} (A : Type ℓ) : Type ℓ where
  pub slots : List (Option A)
  pub capacity : ℕ
  pub head : ℤ
  pub size : ℕ

-- The C++ remainder, which has the sign of the dividend.
unfoldable pub rem_ℤ : ℤ → ℕ → ℤ
rem_ℤ (pos n) c = pos (n % c)
rem_ℤ (negsuc n) c = sub_ℕ 0 (suc n % c)

module _ {ℓ} {A : Type ℓ} where
  unfoldable pub empty_ring : ℕ → Ring A
  empty_ring capacity = record {
    slots = replicate capacity none;
    capacity = capacity;
    head = negsuc 0;
    size = 0;
  }

  -- `(head + 1) % capacity`, where `head` is at least -1.
  unfoldable pub next_index : Ring A → ℕ
  next_index r = pos_part (r.head +ℤ pos 1) % r.capacity

  unfoldable pub emplace : A → Ring A → Ring A
  unfolding next_index
  emplace x r =
      let i = next_index r in
      record r {
        slots = set r.slots i (some x);
        head = pos i;
        size = if r.size == r.capacity then r.size else i + 1;
      }

  unfoldable pub clear : Ring A → Ring A
  clear r =
      if eqb_ℤ r.head (negsuc 0)
      then r
      else record r { slots = replicate r.capacity none; head = negsuc 0; size = 0 }

  -- The index of the `i`-th newest element in the storage.
  unfoldable pub buffer_index : Ring A → ℕ → ℕ
  unfolding rem_ℤ
  buffer_index r i =
      let b = rem_ℤ (r.head -ℤ pos i) r.capacity in
      pos_part (if ltb_ℤ b (pos 0) then b +ℤ pos r.capacity else b)

  abbrev pub join : Option (Option A) → Option A
  join none = none
  join (some o) = o

  -- `none` where the source is undefined.
  unfoldable pub at : Ring A → ℕ → Option A
  unfolding buffer_index
  at r i = join (get_elem? r.slots (buffer_index r i))

-- The ring of a `HashBuffer` holds each value behind its hash.
module _ {ℓ} {A : Type ℓ} (hash : A → ℕ) (same : A → A → Bool) where
  unfoldable pub emplace_hashed : A → Ring (ℕ × A) → Ring (ℕ × A)
  emplace_hashed x r = emplace (hash x, x) r

  abbrev matches : A → Option (ℕ × A) → Bool
  matches value none = false
  matches value (some (h, v)) = hash value == h && same value v

  -- The loop of `indexOf`: the rounds left and `i`. `none` is -1.
  unfoldable pub index_loop : ℕ → ℕ → A → Ring (ℕ × A) → Option ℕ
  index_loop zero i value r = none
  index_loop (suc rounds) i value r =
      let rest = index_loop rounds (i + 1) value r in
      if matches value (at r i) then some i else rest

  unfoldable pub index_of : A → Ring (ℕ × A) → Option ℕ
  unfolding index_loop
  index_of value r = index_loop r.size 0 value r
