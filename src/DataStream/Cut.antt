-- ===== src/DataStream/Cut.antt =====
-- A text cut at each `c` in it.
use mcs_qs.Prelude.{
  ℕ, zero, suc, ◌+◌, ◌≡◌, ◌≢◌, refl, arith, Bool, true, false, ◌&&◌, not, some, List, [], ◌∷◌, ◌++◌,
  get_elem?, take, drop, All, ◌==◌, ap, sym, ◌∙◌, if◌then◌else◌,
}
use mathlib.Core.List.{append_assoc}
use mcs_qs.StreamReader.Until.{Without}
use mcs_qs.DataStream.Scan.{delimited}

abbrev prepend : ℕ → List (List ℕ) × List ℕ → List (List ℕ) × List ℕ
prepend x ([], rest) = ([], x ∷ rest)
prepend x (y ∷ ys, rest) = ((x ∷ y) ∷ ys, rest)

-- The texts before each `c`, and the rest.
unfoldable pub split : ℕ → List ℕ → List (List ℕ) × List ℕ
split c [] = ([], [])
split c (x ∷ xs) =
    let (ys, rest) = split c xs in if x == c then ([] ∷ ys, rest) else prepend x (ys, rest)

-- No two `c` stand side by side.
unfoldable pub is_apart : ℕ → List ℕ → Bool
is_apart c [] = true
is_apart c (x ∷ []) = true
is_apart c (x ∷ y ∷ xs) = let rest = is_apart c (y ∷ xs) in not (x == c && y == c) && rest

pub split-Without : (c : ℕ) (rest : List ℕ) → Without c rest → split c rest ≡ ([], rest)
unfolding split
split-Without c [] w = refl
split-Without c (x ∷ xs) (n, w) =
    let other : (x == c) ≡ false = ground arith in rw (split, other, split-Without c xs w) refl

pub split-text :
    (c : ℕ) (x tail : List ℕ) (ys : List (List ℕ)) (rest : List ℕ)
    → Without c x
    → split c tail ≡ (ys, rest)
    → split c (x ++ (c ∷ tail)) ≡ (x ∷ ys, rest)
unfolding split
split-text c [] tail ys rest w e =
    let same : (c == c) ≡ true = ground arith in rw (split, same, e) refl
split-text c (a ∷ x) tail ys rest (n, w) e =
    let other : (a == c) ≡ false = ground arith in
    rw (split, other, split-text c x tail ys rest w e) refl

-- Cutting undoes delimiting.
pub split-delimited :
    (c : ℕ) (xs : List (List ℕ)) (tail : List ℕ)
    → All (Without c) xs
    → split c (delimited (c ∷ []) xs ++ tail) ≡ (xs ++ (split c tail).0, (split c tail).1)
split-delimited c [] tail a = refl
split-delimited c (x ∷ xs) tail (b, a) =
    ap (split c) (append_assoc x (c ∷ delimited (c ∷ []) xs) tail)
    ∙ split-text c x (delimited (c ∷ []) xs ++ tail) (xs ++ (split c tail).0) (split c tail).1 b
        (split-delimited c xs tail a)

pub get_elem?-drop : (n i : ℕ) (xs : List ℕ) → get_elem? (drop n xs) i ≡ get_elem? xs (n + i)
get_elem?-drop zero i xs = ap (get_elem? xs) (omega arith)
get_elem?-drop (suc n) i [] = refl
get_elem?-drop (suc n) i (x ∷ xs) =
    get_elem?-drop n i xs ∙ ap (get_elem? (x ∷ xs)) (sym (suc_plus n i))
  where
    suc_plus : (m k : ℕ) → suc m + k ≡ suc (m + k)
    suc_plus m k = omega arith

-- One more byte.
pub Without-take :
    (c n : ℕ) (xs : List ℕ)
    → Without c (take n xs)
    → get_elem? xs n ≢ some c
    → Without c (take (suc n) xs)
Without-take c zero [] w h = tt
Without-take c zero (x ∷ xs) w h = ((λ e. h (ap some e)), tt)
Without-take c (suc n) [] w h = tt
Without-take c (suc n) (x ∷ xs) (b, w) h = (b, Without-take c n xs w h)

pub apart_get :
    (c i : ℕ) (xs : List ℕ)
    → is_apart c xs ≡ true
    → get_elem? xs i ≡ some c
    → get_elem? xs (suc i) ≢ some c
unfolding is_apart
apart_get c i [] h e f = absurd (ground arith)
apart_get c zero (x ∷ []) h e f = absurd (ground arith)
apart_get c (suc i) (x ∷ []) h e f = absurd (ground arith)
apart_get c zero (x ∷ y ∷ xs) h e f = absurd (ground arith)
apart_get c (suc i) (x ∷ y ∷ xs) h e f = apart_get c i (y ∷ xs) (ground arith) e f
