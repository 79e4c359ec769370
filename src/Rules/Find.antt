-- ===== src/Rules/Find.antt =====
-- Searching a string.
use mcs_qs.Prelude.{
  ℕ, zero, suc, ◌≤◌, ◌≡◌, inl, inr, refl, arith, true, some, List, [], ◌∷◌, ◌++◌, length, drop,
  Bool-cases,
}
use mcs_qs.Log.{same_bytes}
use mcs_qs.Rules.{starts_with, find_string}

pub same_bytes_sound : (xs ys : List ℕ) → same_bytes xs ys ≡ true → xs ≡ ys
unfolding same_bytes
same_bytes_sound [] [] h = refl
same_bytes_sound [] (y ∷ ys) h = absurd (ground arith)
same_bytes_sound (x ∷ xs) [] h = absurd (ground arith)
same_bytes_sound (x ∷ xs) (y ∷ ys) h = ground (arith, same_bytes_sound xs ys)

pub same_bytes_refl : (xs : List ℕ) → same_bytes xs xs ≡ true
unfolding same_bytes
same_bytes_refl [] = refl
same_bytes_refl (x ∷ xs) = ground (arith, same_bytes_refl xs)

pub starts_with_sound : (p xs : List ℕ) → starts_with p xs ≡ true → xs ≡ p ++ drop (length p) xs
unfolding starts_with
starts_with_sound [] xs h = refl
starts_with_sound (p ∷ ps) [] h = absurd (ground arith)
starts_with_sound (p ∷ ps) (x ∷ xs) h = ground (arith, starts_with_sound ps xs)

pub starts_with-append : (p xs : List ℕ) → starts_with p (p ++ xs) ≡ true
unfolding starts_with
starts_with-append [] xs = refl
starts_with-append (p ∷ ps) xs = ground (arith, starts_with-append ps xs)

-- A string that is found stands there.
pub find_string_sound :
    (p xs : List ℕ) (i : ℕ)
    → find_string p xs ≡ some i
    → (starts_with p (drop i xs) ≡ true) × (i ≤ length xs)
unfolding find_string
find_string_sound p [] i h = ground arith
find_string_sound p (x ∷ xs) zero h = ground arith
find_string_sound p (x ∷ xs) (suc i) h = ground (arith, find_string_sound p xs i)

-- A string that stands somewhere is found, and not behind that place.
pub find_string_complete :
    (p xs : List ℕ) (i : ℕ)
    → starts_with p (drop i xs) ≡ true
    → (j : ℕ) × ((find_string p xs ≡ some j) × (j ≤ i))
unfolding find_string
find_string_complete p [] zero h = (0, ground arith)
find_string_complete p [] (suc i) h = (0, ground arith)
find_string_complete p (x ∷ xs) zero h = rw h (0, (refl, omega arith))
find_string_complete p (x ∷ xs) (suc i) h =
    let (j, (e, le)) = find_string_complete p xs i h in
    elim (Bool-cases (starts_with p (x ∷ xs))) [
      | inl t ↦ rw t (0, (refl, omega arith))
      | inr f ↦ rw (f, e) (suc j, (refl, omega arith))
    ]
