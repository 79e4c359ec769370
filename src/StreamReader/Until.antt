-- ===== src/StreamReader/Until.antt =====
-- `readUntil`: the search for the terminator goes on where the buffer ended before.
use mcs_qs.Prelude.{
  ℕ, zero, suc, ◌+◌, ◌-◌, ◌≤◌, ◌<◌, ◌≡◌, ◌≢◌, refl, arith, Bool, true, false, Option, none, some,
  List, [], ◌∷◌, ◌++◌, length, length-append, length-drop, take, drop, All, ◌==◌, Bool-cases, inl,
  inr, ap, sym, ◌∙◌, drop-length_append,
}
use mathlib.Core.List.{append_assoc}
use mcs_qs.StreamReader.{
  Device, StreamReader, index_of, index_from, and_then, found, fill, search, read_until,
}
use mcs_qs.StreamReader.Reading.{
  Grows, Grows-refl, Grows-trans, Grows-stream, Filled, fill-Filled, Outcome, IsOpen, taken-Reads,
}

All-append : (P : ℕ → Type 0) (xs ys : List ℕ) → All P xs → All P ys → All P (xs ++ ys)
All-append P [] ys a b = b
All-append P (x ∷ xs) ys (p, a) b = (p, All-append P xs ys a b)

abbrev pub Without : ℕ → List ℕ → Type 0
Without c xs = All (λ x. x ≢ c) xs

-- `x` ends with the first `c` in it.
abbrev pub EndsWith : ℕ → List ℕ → Type 0
EndsWith c x = (ys : List ℕ) × ((x ≡ ys ++ c ∷ []) × Without c ys)

abbrev FirstAt : ℕ → List ℕ → Option ℕ → Type 0
FirstAt c xs none = Without c xs
FirstAt c xs (some i) =
    (i < length xs) × ((take (suc i) xs ≡ take i xs ++ c ∷ []) × Without c (take i xs))

FirstAt-later :
    (c x : ℕ) (xs : List ℕ) (o : Option ℕ)
    → x ≢ c
    → FirstAt c xs o
    → FirstAt c (x ∷ xs) (elim o [ none ↦ none | some i ↦ some (suc i) ])
FirstAt-later c x xs none ne p = (ne, p)
FirstAt-later c x xs (some i) ne (lt, (e, w)) = (omega arith, (ap (λ ys. x ∷ ys) e, (ne, w)))

index_of-FirstAt : (c : ℕ) (xs : List ℕ) → FirstAt c xs (index_of c xs)
unfolding index_of
index_of-FirstAt c [] = tt
index_of-FirstAt c (x ∷ xs) = elim (Bool-cases (x == c)) [
  | inl t ↦ let e : x ≡ c = ground arith in rw (index_of, t) (omega arith, (ap (λ y. y ∷ []) e, tt))
  | inr f ↦
      let ne : x ≢ c = ground arith in
      rw (index_of, f) (FirstAt-later c x xs (index_of c xs) ne (index_of-FirstAt c xs))
]

module _ (dev : Device) where
  open dev use {State}

  -- No terminator stands between the cursor and the place where the search goes on.
  record Searched (c from : ℕ) (r : StreamReader dev) : Type 0 where
    front : List ℕ
    clean : Without c front
    place : from ≡ r.cursor + length front
    split : drop r.cursor r.buffer ≡ front ++ drop from r.buffer

  drop-append_le : (n : ℕ) (xs ys : List ℕ) → n ≤ length xs → drop n (xs ++ ys) ≡ drop n xs ++ ys
  drop-append_le zero xs ys h = refl
  drop-append_le (suc n) [] ys h = absurd (omega arith)
  drop-append_le (suc n) (x ∷ xs) ys h = drop-append_le n xs ys (omega arith)

  take_across :
      (front xs : List ℕ) (n : ℕ) → take (length front + n) (front ++ xs) ≡ front ++ take n xs
  take_across [] xs n = ap (λ k. take k xs) (omega arith)
  take_across (x ∷ front) xs n =
      let e : length (x ∷ front) + n ≡ suc (length front + n) = omega arith in
      ap (λ k. take k (x ∷ front ++ xs)) e ∙ ap (λ ys. x ∷ ys) (take_across front xs n)

  -- The terminator that was found ends what the read gives.
  abbrev Found : ℕ → StreamReader dev → Option ℕ × StreamReader dev → Type 0
  Found c r (none, r') = (extra : List ℕ) × Grows dev extra r r'
  Found c r (some i, r') =
      (extra : List ℕ) × (Grows dev extra r r'
        × ((r'.cursor + (i - r'.cursor + 1) ≤ length r'.buffer)
            × EndsWith c (take (i - r'.cursor + 1) (drop r'.cursor r'.buffer))))

  -- The place where a search of the buffer from `from` on finds the terminator.
  at_place :
      (c from i : ℕ) (r : StreamReader dev)
      → Searched c from r
      → FirstAt c (drop from r.buffer) (some i)
      → from ≤ length r.buffer
      → Found c r (some (from + i), r)
  at_place c from i r s (lt, (e, w)) h =
      let n : from + i - r.cursor + 1 ≡ length s.front + suc i = omega (arith, s.place) in
      let bytes : take (from + i - r.cursor + 1) (drop r.cursor r.buffer)
          ≡ s.front ++ take (suc i) (drop from r.buffer) =
        rw (n, s.split) (take_across s.front (drop from r.buffer) (suc i)) in
      (
        [],
        (
          Grows-refl dev r,
          (
            omega (arith, s.place, lt, length-drop from r.buffer),
            (
              s.front ++ take i (drop from r.buffer),
              (
                bytes
                    ∙ ap (λ ys. s.front ++ ys) e
                    ∙ sym (append_assoc s.front (take i (drop from r.buffer)) (c ∷ [])),
                All-append (λ x. x ≢ c) s.front (take i (drop from r.buffer)) s.clean w,
              ),
            ),
          ),
        ),
      )

  Found-trans :
      (xs : List ℕ) (c : ℕ) (r r' : StreamReader dev) (out : Option ℕ × StreamReader dev)
      → Grows dev xs r r'
      → Found c r' out
      → Found c r out
  Found-trans xs c r r' (none, r'') g (ys, g') = (xs ++ ys, Grows-trans dev xs ys r r' r'' g g')
  Found-trans xs c r r' (some i, r'') g (ys, (g', p)) =
      (xs ++ ys, (Grows-trans dev xs ys r r' r'' g g', p))

  -- Where nothing was found, the search goes on at the end of what was there.
  further :
      (c from : ℕ) (xs : List ℕ) (r r' : StreamReader dev)
      → Searched c from r
      → Without c (drop from r.buffer)
      → r.cursor ≤ length r.buffer
      → Grows dev xs r r'
      → Searched c (length r.buffer) r'
  further c from xs r r' s w h g = record {
    front = drop r.cursor r.buffer;
    clean = rw s.split (All-append (λ x. x ≢ c) s.front (drop from r.buffer) s.clean w);
    place = omega (arith, g.cursor, length-drop r.cursor r.buffer, h);
    split =
        rw (g.cursor, g.buffer)
          (drop-append_le r.cursor r.buffer xs h
            ∙ ap (λ ys. drop r.cursor r.buffer ++ ys) (sym (drop-length_append r.buffer xs)));
  }

  then-Found :
      (c from : ℕ) (rest : StreamReader dev → Option ℕ × StreamReader dev) (r : StreamReader dev)
      (out : Bool × StreamReader dev)
      → Searched c from r
      → Without c (drop from r.buffer)
      → r.cursor ≤ length r.buffer
      → Filled dev r out
      → ((r' : StreamReader dev)
          → Searched c (length r.buffer) r'
          → length r.buffer ≤ length r'.buffer
          → r'.cursor ≤ length r'.buffer
          → Found c r' (rest r'))
      → Found c r (and_then dev none rest out)
  then-Found c from rest r (false, r') s w h (xs, (g, p)) ih = (xs, g)
  then-Found c from rest r (true, r') s w h (xs, (g, p)) ih =
      let longer : length r'.buffer ≡ length r.buffer + length xs =
        ap length g.buffer ∙ length-append r.buffer xs in
      Found-trans xs c r r' (rest r') g (
        ih r' (further c from xs r r' s w h g) (omega (arith, longer))
          (omega (arith, longer, h, g.cursor)))

  search-Found :
      (fuel c from : ℕ) (r : StreamReader dev)
      → Searched c from r
      → from ≤ length r.buffer
      → r.cursor ≤ length r.buffer
      → Found c r (search dev fuel c from r)
  unfolding search index_from
  search-Found zero c from r s h v = ([], Grows-refl dev r)
  search-Found (suc fuel) c from r s h v =
      go (search-Found fuel c) (index_of c (drop from r.buffer))
        (index_of-FirstAt c (drop from r.buffer))
    where
      go :
          ((from : ℕ) (r : StreamReader dev)
            → Searched c from r
            → from ≤ length r.buffer
            → r.cursor ≤ length r.buffer
            → Found c r (search dev fuel c from r))
          → (o : Option ℕ) → FirstAt c (drop from r.buffer) o
          → Found c r
              (elim (elim o as (λ _. Option ℕ) [ none ↦ none | some i ↦ some (from + i) ])
                as (λ _. Option ℕ × StreamReader dev) [
                  | some i ↦ (some i, r)
                  | none ↦ and_then dev none (search dev fuel c (length r.buffer)) (fill dev r)
                ])
      go ih none w =
          then-Found c from (search dev fuel c (length r.buffer)) r (fill dev r) s w v
            (fill-Filled dev r) (ih (length r.buffer))
      go ih (some i) p = at_place c from i r s p h

  -- `readUntil` gives the bytes up to the first terminator, or fails.
  pub read_until-Outcome :
      (c : ℕ) (r : StreamReader dev)
      → IsOpen dev r
      → Outcome dev (EndsWith c) r (read_until dev c r)
  unfolding read_until
  read_until-Outcome c r o =
      let fuel = suc (length (dev.pending r.device)) in
      simp o.ok (
        go (search dev fuel c r.cursor r) (
          search-Found fuel c r.cursor r
            (record { front = []; clean = tt; place = omega arith; split = refl }) o.within
            o.within))
    where
      go :
          (out : Option ℕ × StreamReader dev)
          → Found c r out
          → Outcome dev (EndsWith c) r (found dev out)
      go (none, r') (xs, g) = inr (
        refl,
        record { same_cursor = g.cursor; same_stream = Grows-stream dev xs r r' g; bad = refl },
      )
      go (some i, r') (xs, (g, (l, p))) =
          inl (taken-Reads dev xs (i - r'.cursor + 1) r r' o g (omega (arith, l, g.cursor)), p)
