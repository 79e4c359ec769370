-- ===== src/Log/Back.antt =====
-- Lists from their last element to their first, and the last elements of a list.
use mcs_qs.Prelude.{
  ℕ, zero, suc, ◌-◌, ◌≤◌, ◌<◌, ◌≡◌, refl, arith, some, List, [], ◌∷◌, ◌++◌, length, length-append,
  get_elem?, take, drop, ap, sym, ◌∙◌,
}

module _ {A : Type 0} where
  -- A list from its last element to its first.
  abbrev pub back : List A → List A
  back [] = []
  back (x ∷ xs) = back xs ++ x ∷ []

  length-back : (xs : List A) → length (back xs) ≡ length xs
  length-back [] = refl
  length-back (x ∷ xs) = omega (arith, length-append (back xs) (x ∷ []), length-back xs)

  -- The last elements.
  abbrev pub last_of : ℕ → List A → List A
  last_of n xs = drop (length xs - n) xs

  drop_all : (n : ℕ) (xs : List A) → length xs ≤ n → drop n xs ≡ []
  drop_all zero [] h = refl
  drop_all zero (x ∷ xs) h = absurd (omega arith)
  drop_all (suc n) [] h = refl
  drop_all (suc n) (x ∷ xs) h = drop_all n xs (omega arith)

  drop-append_le : (n : ℕ) (xs ys : List A) → n ≤ length xs → drop n (xs ++ ys) ≡ drop n xs ++ ys
  drop-append_le zero xs ys h = refl
  drop-append_le (suc n) [] ys h = absurd (omega arith)
  drop-append_le (suc n) (x ∷ xs) ys h = drop-append_le n xs ys (omega arith)

  pub back-take : (n : ℕ) (xs : List A) → back (take n xs) ≡ last_of n (back xs)
  back-take zero xs = sym (drop_all (length (back xs) - 0) (back xs) (omega arith))
  back-take (suc n) [] = sym (drop_all (length {A = A} [] - suc n) [] (omega arith))
  back-take (suc n) (x ∷ xs) =
      let offset : length (back xs ++ x ∷ []) - suc n ≡ length (back xs) - n =
        omega (arith, length-append (back xs) (x ∷ [])) in
      ap (λ ys. ys ++ x ∷ []) (back-take n xs)
      ∙ sym (drop-append_le (length (back xs) - n) (back xs) (x ∷ []) (omega arith))
      ∙ ap (λ k. drop k (back xs ++ x ∷ [])) (sym offset)

  pub back-get :
      (i : ℕ) (xs : List A) (y : A)
      → get_elem? xs i ≡ some y
      → back (take (suc i) xs) ≡ y ∷ back (take i xs)
  back-get i [] y e = absurd (ground arith)
  back-get zero (x ∷ xs) y e = ground arith
  back-get (suc i) (x ∷ xs) y e = ap (λ ys. ys ++ x ∷ []) (back-get i xs y e)

  take-take : (n : ℕ) (xs : List A) → take n (take (suc n) xs) ≡ take n xs
  take-take zero xs = refl
  take-take (suc n) [] = refl
  take-take (suc n) (x ∷ xs) = ap (λ ys. x ∷ ys) (take-take n xs)

  pub take_again : (n : ℕ) (x : A) (xs : List A) → take n (x ∷ take n xs) ≡ take n (x ∷ xs)
  take_again zero x xs = refl
  take_again (suc n) x xs = ap (λ ys. x ∷ ys) (take-take n xs)

  pub get_elem?-some : (i : ℕ) (xs : List A) → i < length xs → (y : A) × (get_elem? xs i ≡ some y)
  get_elem?-some i [] h = absurd (omega arith)
  get_elem?-some zero (x ∷ xs) h = (x, refl)
  get_elem?-some (suc i) (x ∷ xs) h = get_elem?-some i xs (omega arith)
