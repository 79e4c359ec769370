-- ===== src/Ring/Refine.antt =====
-- A ring buffer is the list of its elements, newest first, cut to its capacity.
use native.Mathlib.Nat.{mod-eq_of_lt, mod_self}
use native.Mathlib.Decide.{dec_lt}
use mcs_qs.Prelude.{
  ℕ, zero, suc, ◌+◌, ◌-◌, ◌%◌, ◌≤◌, ◌<◌, ◌≡◌, ◌≢◌, ◌⊎◌, inl, inr, refl, arith, none, some, List, [],
  ◌∷◌, length, get_elem?, take, length-set, get_elem?-set_self, get_elem?-set_ne, length-take,
  get_elem?-take, length-replicate, leb, if◌then◌else◌, ◌==◌, Bool-cases, ap, ◌∙◌, min,
}
use mcs_qs.Prelude.Int.{pos, negsuc, ◌+ℤ◌, ◌-ℤ◌, eqb_ℤ}
use mcs_qs.Ring.{Ring, empty_ring, next_index, emplace, clear, buffer_index, at, rem_ℤ, join}

-- Where the `i`-th newest of `c` slots is, if the newest is at `h`.
abbrev slot : ℕ → ℕ → ℕ → ℕ
slot h c i = if leb i h then h - i else h + c - i

rem_nonneg : (n c : ℕ) → n < c → rem_ℤ (pos n) c ≡ pos n
unfolding rem_ℤ
rem_nonneg n c h = ap pos (mod-eq_of_lt h)

rem_neg : (n c : ℕ) → suc n < c → rem_ℤ (negsuc n) c ≡ negsuc n
unfolding rem_ℤ
rem_neg n c h = rw (mod-eq_of_lt {n = suc n} {m = c} h) (ground arith)

add_pos : (h : ℕ) → pos h +ℤ pos 1 ≡ pos (suc h)
unfolding ◌+ℤ◌
add_pos h = ground arith

mod_next : (h c : ℕ) → h < c → suc h % c ≡ (if suc h == c then 0 else suc h)
mod_next h c lt = ground (arith, mod-eq_of_lt {n = suc h} {m = c}, mod_self c)

slot_zero : (h c : ℕ) → slot h c 0 ≡ h
slot_zero h c = ground arith

sub_pos : (h i : ℕ) → i ≤ h → pos h -ℤ pos i ≡ pos (h - i)
unfolding ◌-ℤ◌
sub_pos h i le = ground arith

sub_neg : (h i : ℕ) → h < i → pos h -ℤ pos i ≡ negsuc (i - h - 1)
unfolding ◌-ℤ◌
sub_neg h i lt = ground arith

module _ {ℓ} {A : Type ℓ} where
  buffer_index_lem :
      (r : Ring A) (h i : ℕ)
      → r.head ≡ pos h
      → h < r.capacity
      → i < r.capacity
      → buffer_index r i ≡ slot h r.capacity i
  unfolding buffer_index ◌+ℤ◌
  buffer_index_lem r h i e hh hi = rw e (elim (dec_lt h i) [
    | yes lt ↦ rw (sub_neg h i lt, rem_neg (i - h - 1) r.capacity (omega arith)) (ground arith)
    | no ge ↦
        rw (sub_pos h i (omega arith), rem_nonneg (h - i) r.capacity (omega arith)) (ground arith)
  ])

  at_lem :
      (r : Ring A) (h i : ℕ)
      → r.head ≡ pos h
      → h < r.capacity
      → i < r.capacity
      → at r i ≡ join (get_elem? r.slots (slot h r.capacity i))
  unfolding at
  at_lem r h i e hh hi = rw (buffer_index_lem r h i e hh hi)

  -- The buffer is empty, or its newest element is in the storage, and the storage is full or filled
  -- up to it.
  abbrev pub HeadFits : Ring A → Type 0
  HeadFits r =
      ((r.size ≡ 0) × (r.head ≡ negsuc 0))
      ⊎ ((h : ℕ) × (r.head ≡ pos h) × (h < r.capacity) × ((r.size ≡ suc h) ⊎ (r.size ≡ r.capacity)))

  -- `xs` is what the buffer holds, newest first.
  pub record Holds (r : Ring A) (xs : List A) : Type ℓ where
    pub counted : r.size ≡ length xs
    pub bounded : r.size ≤ r.capacity
    pub roomy : 0 < r.capacity
    pub storage : length r.slots ≡ r.capacity
    pub head_fits : HeadFits r
    pub items : (i : ℕ) → i < r.size → at r i ≡ get_elem? xs i

  -- A new buffer holds nothing.
  pub empty_ring-Holds : (capacity : ℕ) → 0 < capacity → Holds (empty_ring capacity) []
  unfolding empty_ring
  empty_ring-Holds capacity h = record {
    counted = refl;
    bounded = omega arith;
    roomy = h;
    storage = length-replicate capacity none;
    head_fits = inl (refl, refl);
    items = λ i lt. absurd (omega arith);
  }

  next_index_empty : (r : Ring A) → r.head ≡ negsuc 0 → 0 < r.capacity → next_index r ≡ 0
  unfolding next_index ◌+ℤ◌
  next_index_empty r e c = rw e (mod-eq_of_lt c)

  next_index_lem :
      (r : Ring A) (h : ℕ)
      → r.head ≡ pos h
      → h < r.capacity
      → next_index r ≡ (if suc h == r.capacity then 0 else suc h)
  unfolding next_index
  next_index_lem r h e lt = rw (e, add_pos) (mod_next h r.capacity lt)

  next_index-lt : (r : Ring A) → HeadFits r → 0 < r.capacity → next_index r < r.capacity
  next_index-lt r (inl (z, e)) c = omega (arith, next_index_empty r e c)
  next_index-lt r (inr (h, e, lt, f)) c = ground (arith, next_index_lem r h e lt)

  size-emplace :
      (x : A) (r : Ring A)
      → HeadFits r
      → 0 < r.capacity
      → r.size ≤ r.capacity
      → ((emplace x r).size ≡ min r.capacity (suc r.size))
        × ((r.size < r.capacity) → next_index r ≡ r.size)
  unfolding emplace
  size-emplace x r (inl (z, e)) c b = ground (arith, next_index_empty r e c)
  size-emplace x r (inr (h, e, lt, f)) c b = ground (arith, next_index_lem r h e lt)

  emplace-HeadFits :
      (x : A) (r : Ring A)
      → HeadFits r
      → 0 < r.capacity
      → r.size ≤ r.capacity
      → HeadFits (emplace x r)
  unfolding emplace
  emplace-HeadFits x r f c b =
      inr (next_index r, refl, next_index-lt r f c, ground (arith, size-emplace x r f c b))

  newest :
      (x : A) (r : Ring A)
      → HeadFits r
      → 0 < r.capacity
      → length r.slots ≡ r.capacity
      → at (emplace x r) 0 ≡ some x
  unfolding emplace
  newest x r f c s =
      let lt = next_index-lt r f c in
      rw (at_lem (emplace x r) (next_index r) 0 refl lt c, slot_zero (next_index r) r.capacity)
        (ap join (get_elem?-set_self r.slots (next_index r) (some x) (omega arith)))

  older_slot :
      (r : Ring A) (h j : ℕ)
      → r.head ≡ pos h
      → h < r.capacity
      → suc j < r.capacity
      → (slot (next_index r) r.capacity (suc j) ≡ slot h r.capacity j)
        × (next_index r ≢ slot h r.capacity j)
  older_slot r h j e lt lc = ground (arith, next_index_lem r h e lt)

  older :
      (x : A) (r : Ring A) (j : ℕ)
      → HeadFits r
      → 0 < r.capacity
      → j < r.size
      → suc j < r.capacity
      → at (emplace x r) (suc j) ≡ at r j
  unfolding emplace
  older x r j (inl (z, e)) c lt lc = absurd (omega arith)
  older x r j (inr (h, e, hlt, f)) c lt lc =
      let n = next_index-lt r (inr (h, e, hlt, f)) c in
      let places = older_slot r h j e hlt lc in
      rw
        (
          at_lem (emplace x r) (next_index r) (suc j) refl n lc,
          at_lem r h j e hlt (omega arith),
          places.0,
        )
        (ap join (get_elem?-set_ne r.slots (next_index r) (slot h r.capacity j) (some x) places.1))

  emplace-items :
      (x : A) (r : Ring A) (xs : List A) (i : ℕ)
      → Holds r xs
      → i < (emplace x r).size
      → at (emplace x r) i ≡ get_elem? (take r.capacity (x ∷ xs)) i
  emplace-items x r xs i v lt =
      rw (get_elem?-take r.capacity i (x ∷ xs) (omega (arith, sizes.0))) (go i lt)
    where
      sizes :
          ((emplace x r).size ≡ min r.capacity (suc r.size))
          × ((r.size < r.capacity) → next_index r ≡ r.size)
      sizes = size-emplace x r v.head_fits v.roomy v.bounded

      go : (k : ℕ) → k < (emplace x r).size → at (emplace x r) k ≡ get_elem? (x ∷ xs) k
      go zero h = newest x r v.head_fits v.roomy v.storage
      go (suc j) h =
          older x r j v.head_fits v.roomy (omega (arith, sizes.0)) (omega (arith, sizes.0))
          ∙ v.items j (omega (arith, sizes.0))

  -- Inserting puts the new element first, and drops the oldest if the buffer was full.
  pub emplace-Holds :
      (x : A) {r : Ring A} {xs : List A}
      → Holds r xs
      → Holds (emplace x r) (take r.capacity (x ∷ xs))
  unfolding emplace
  emplace-Holds x {r} {xs} v = record {
    counted = omega (arith, sizes.0, length-take {ℓ} r.capacity (x ∷ xs), v.counted);
    bounded = omega (arith, sizes.0);
    roomy = v.roomy;
    storage = length-set r.slots (next_index r) (some x) ∙ v.storage;
    head_fits = emplace-HeadFits x r v.head_fits v.roomy v.bounded;
    items = λ i lt. emplace-items x r xs i v lt;
  }
    where
      sizes :
          ((emplace x r).size ≡ min r.capacity (suc r.size))
          × ((r.size < r.capacity) → next_index r ≡ r.size)
      sizes = size-emplace x r v.head_fits v.roomy v.bounded

  -- Clearing leaves an empty buffer of the same capacity.
  pub clear-Holds : {r : Ring A} {xs : List A} → Holds r xs → Holds (clear r) []
  unfolding clear empty_ring
  clear-Holds {r} v = elim (Bool-cases (eqb_ℤ r.head (negsuc 0))) [
    | inl t ↦ rw t (record {
      counted = ground arith;
      bounded = v.bounded;
      roomy = v.roomy;
      storage = v.storage;
      head_fits = v.head_fits;
      items = λ i lt. absurd (ground arith);
    })
    | inr t ↦ rw t (empty_ring-Holds r.capacity v.roomy)
  ]
