-- ===== src/DataStream/Slices.antt =====
-- What a match and a slice are, in the buffer and the incoming bytes together.
use mcs_qs.Prelude.{
  ℕ, zero, suc, ◌+◌, ◌-◌, ◌≤◌, ◌<◌, ◌≡◌, ◌⊎◌, refl, arith, true, false, Option, none, some, List,
  [], ◌∷◌, ◌++◌, length, get_elem?, take, drop, ltb, min, Bool-cases, inl, inr, ap, sym, ◌∙◌,
  if◌then◌else◌, subst, take-append_le,
}
use mathlib.Core.List.{append-nil}
use mcs_qs.DataStream.{byte_at, is_byte, matches, slice, remainder}

get_elem?-front : (xs ys : List ℕ) (i : ℕ) → i < length xs → get_elem? (xs ++ ys) i ≡ get_elem? xs i
get_elem?-front [] ys i h = absurd (omega arith)
get_elem?-front (x ∷ xs) ys zero h = refl
get_elem?-front (x ∷ xs) ys (suc i) h = get_elem?-front xs ys i (omega arith)

get_elem?-back :
    (xs ys : List ℕ) (i : ℕ) → length xs ≤ i → get_elem? (xs ++ ys) i ≡ get_elem? ys (i - length xs)
get_elem?-back [] ys i h = ap (get_elem? ys) (omega arith)
get_elem?-back (x ∷ xs) ys zero h = absurd (omega arith)
get_elem?-back (x ∷ xs) ys (suc i) h =
    get_elem?-back xs ys i (omega arith) ∙ ap (get_elem? ys) (omega arith)

drop-back : (xs ys : List ℕ) (i : ℕ) → length xs ≤ i → drop i (xs ++ ys) ≡ drop (i - length xs) ys
drop-back [] ys i h = ap (λ k. drop k ys) (omega arith)
drop-back (x ∷ xs) ys zero h = absurd (omega arith)
drop-back (x ∷ xs) ys (suc i) h =
    drop-back xs ys i (omega arith) ∙ ap (λ k. drop k ys) (omega arith)

pub drop-get : (xs : List ℕ) (i c : ℕ) → get_elem? xs i ≡ some c → drop i xs ≡ c ∷ drop (suc i) xs
drop-get [] i c e = absurd (ground arith)
drop-get (x ∷ xs) zero c e = ground arith
drop-get (x ∷ xs) (suc i) c e = drop-get xs i c e

pub take_all : (n : ℕ) (xs : List ℕ) → length xs ≤ n → take n xs ≡ xs
take_all zero [] h = refl
take_all zero (x ∷ xs) h = absurd (omega arith)
take_all (suc n) [] h = refl
take_all (suc n) (x ∷ xs) h = ap (λ ys. x ∷ ys) (take_all n xs (omega arith))

pub take_past :
    (n : ℕ) (xs ys : List ℕ) → length xs ≤ n → take n (xs ++ ys) ≡ xs ++ take (n - length xs) ys
take_past n [] ys h = ap (λ k. take k ys) (omega arith)
take_past zero (x ∷ xs) ys h = absurd (omega arith)
take_past (suc n) (x ∷ xs) ys h =
    ap (λ zs. x ∷ zs) (take_past n xs ys (omega arith) ∙ ap (λ k. xs ++ take k ys) (omega arith))

module _ (marker buffer incoming : List ℕ) where
  abbrev pub whole : List ℕ
  whole = buffer ++ incoming

  pub byte_at_lem : (i : ℕ) → byte_at marker buffer incoming i ≡ get_elem? whole i
  unfolding byte_at
  byte_at_lem i = elim (Bool-cases (ltb i (length buffer))) [
    | inl t ↦ rw t (sym (get_elem?-front buffer incoming i (ground arith)))
    | inr f ↦ rw f (sym (get_elem?-back buffer incoming i (ground arith)))
  ]

  pub is_byte_lem : (o : Option ℕ) (c : ℕ) → is_byte marker buffer incoming o c ≡ true → o ≡ some c
  is_byte_lem none c h = absurd (ground arith)
  is_byte_lem (some x) c h = ap some (ground arith)

  -- A match is the marker at the place.
  pub matches_lem :
      (cs : List ℕ) (i : ℕ)
      → matches marker buffer incoming cs i ≡ true
      → drop i whole ≡ cs ++ drop (i + length cs) whole
  unfolding matches
  matches_lem [] i h = ap (λ k. drop k whole) (omega arith)
  matches_lem (c ∷ cs) i h =
      let here : is_byte marker buffer incoming (byte_at marker buffer incoming i) c ≡ true =
        ground arith in
      let there : matches marker buffer incoming cs (suc i) ≡ true = ground arith in
      drop-get whole i c
        (sym (byte_at_lem i) ∙ is_byte_lem (byte_at marker buffer incoming i) c here)
      ∙ ap (λ ys. c ∷ ys)
          (matches_lem cs (suc i) there ∙ ap (λ k. cs ++ drop k whole) (omega arith))

  -- The source's starts: that of the buffer, or one behind the buffer.
  abbrev pub IsStart : ℕ → Type 0
  IsStart start = (start ≡ 0) ⊎ (length buffer ≤ start)

  before : (n : ℕ) → IsStart n → n < length buffer → n ≡ 0
  before n (inl e) h = e
  before n (inr l) h = absurd (omega (arith, l, h))

  pub remainder_lem :
      (start : ℕ) → IsStart start → remainder marker buffer incoming start ≡ drop start whole
  unfolding remainder
  remainder_lem start s = elim (Bool-cases (ltb start (length buffer))) [
    | inl t ↦
        let first : start ≡ 0 = before start s (ground arith) in
        rw t (sym (ap (λ k. drop k whole) first))
    | inr f ↦ rw f (sym (drop-back buffer incoming start (ground arith)))
  ]

  abbrev pub between : ℕ → ℕ → List ℕ
  between start place = take (place - start) (drop start whole)

  front_all :
      (place : ℕ)
      → length buffer ≤ place
      → take (min (length buffer) place) buffer
          ++ take (place - length buffer) (drop (length buffer - length buffer) incoming)
        ≡ buffer ++ take (place - length buffer) incoming
  front_all place far =
      let b = length buffer in
      let none_off : b - b ≡ 0 = omega arith in
      ap (λ ys. ys ++ take (place - b) (drop (b - b) incoming))
        (take_all (min b place) buffer (omega arith))
      ∙ ap (λ k. buffer ++ take (place - b) (drop k incoming)) none_off

  front_part :
      (place : ℕ)
      → place ≤ length buffer
      → take (min (length buffer) place) buffer ++ [] ≡ take place buffer
  front_part place near =
      append-nil (take (min (length buffer) place) buffer) ∙ ap (λ k. take k buffer) (omega arith)

  slice_front :
      (place : ℕ) → 0 < length buffer → slice marker buffer incoming 0 place ≡ between 0 place
  unfolding slice
  slice_front place h =
      let b = length buffer in
      let first : ltb 0 b ≡ true = ground arith in
      let start : (if ltb b 0 then 0 else b) ≡ b = ground arith in
      let all : place - 0 ≡ place = omega arith in
      elim (Bool-cases (ltb b place)) [
        | inl t ↦
            let far : b ≤ place = ground arith in
            rw (first, t, start, all, take_past place buffer incoming far) (front_all place far)
        | inr f ↦
            let near : place ≤ b = ground arith in
            rw (first, f, all, take-append_le place buffer incoming near) (front_part place near)
      ]

  slice_back :
      (start place : ℕ)
      → length buffer ≤ start
      → start ≤ place
      → slice marker buffer incoming start place ≡ between start place
  unfolding slice
  slice_back start place h l =
      let b = length buffer in
      let no_front : ltb start b ≡ false = ground arith in
      let from : (if ltb b start then start else b) ≡ start = ground arith in
      elim (Bool-cases (ltb b place)) [
        | inl t ↦
            rw (no_front, t, from)
              (ap (take (place - start)) (sym (drop-back buffer incoming start h)))
        | inr f ↦ let nothing : place - start ≡ 0 = ground arith in rw (no_front, f, nothing) refl
      ]

  pub slice_lem :
      (start place : ℕ)
      → IsStart start
      → start ≤ place
      → slice marker buffer incoming start place ≡ between start place
  slice_lem start place s l = elim (Bool-cases (ltb start (length buffer))) [
    | inl t ↦
        let first : start ≡ 0 = before start s (ground arith) in
        let some_buffer : 0 < length buffer = ground arith in
        subst (λ k. slice marker buffer incoming k place ≡ between k place) (sym first)
          (slice_front place some_buffer)
    | inr f ↦ slice_back start place (ground arith) l
  ]
