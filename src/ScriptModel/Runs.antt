-- ===== src/ScriptModel/Runs.antt =====
-- Where a value is found, and how far the iterators go.
use mcs_qs.Prelude.{
  suc, ◌≤◌, ◌<◌, ◌≡◌, refl, arith, Bool, true, false, List, [], ◌∷◌, ◌++◌, length, take, drop,
  Bool-cases, inl, inr, ap,
}
use mcs_qs.ScriptModel.{find_if, is_absent, run_while, run_both}

module _ {ℓ} {A : Type ℓ} where
  pub find_if-le : (p : A → Bool) (xs : List A) → find_if p xs ≤ length xs
  unfolding find_if
  find_if-le p [] = omega arith
  find_if-le p (x ∷ xs) = ground (arith, find_if-le p xs)

  -- The list up to the value that was found, the value, and the rest.
  pub find_if_split :
      (p : A → Bool) (xs : List A)
      → is_absent p xs ≡ false
      → (z : A) × ((xs ≡ take (find_if p xs) xs ++ z ∷ drop (suc (find_if p xs)) xs)
          × ((p z ≡ true)
              × ((length (take (find_if p xs) xs) ≡ find_if p xs) × (find_if p xs < length xs))))
  unfolding find_if
  find_if_split p [] h = absurd (ground arith)
  find_if_split p (x ∷ xs) h = elim (Bool-cases (p x)) [
    | inl t ↦ rw t (x, (refl, (t, (refl, omega arith))))
    | inr f ↦
        let h' : is_absent p xs ≡ false = ground arith in
        let (z, (e, (t, (l, lt)))) = find_if_split p xs h' in
        rw f (z, (ap (λ ys. x ∷ ys) e, (t, (ap suc l, omega (arith, lt)))))
  ]

  pub run_while-le : (p : A → Bool) (xs : List A) → run_while p xs ≤ length xs
  unfolding run_while
  run_while-le p [] = omega arith
  run_while-le p (x ∷ xs) = ground (arith, run_while-le p xs)

  pub run_both-le :
      (p : A → A → Bool) (xs ys : List A)
      → (run_both p xs ys ≤ length xs) × (run_both p xs ys ≤ length ys)
  unfolding run_both
  run_both-le p [] ys = (omega arith, omega arith)
  run_both-le p (x ∷ xs) [] = (omega arith, omega arith)
  run_both-le p (x ∷ xs) (y ∷ ys) = ground (arith, run_both-le p xs ys)

-- Two lists of the same length whose values are related in their order.
abbrev pub Agree : {A : Type 0} → (A → A → Type 0) → List A → List A → Type 0
Agree R [] [] = Unit {0}
Agree R [] (y ∷ ys) = ⊥
Agree R (x ∷ xs) [] = ⊥
Agree R (x ∷ xs) (y ∷ ys) = R x y × Agree R xs ys

module _ {A : Type 0} (R : A → A → Type 0) where
  pub Agree-refl : ((x : A) → R x x) → (xs : List A) → Agree R xs xs
  Agree-refl r [] = tt
  Agree-refl r (x ∷ xs) = (r x, Agree-refl r xs)

  pub length-Agree : (xs ys : List A) → Agree R xs ys → length xs ≡ length ys
  length-Agree [] [] a = refl
  length-Agree [] (y ∷ ys) a = absurd a
  length-Agree (x ∷ xs) [] a = absurd a
  length-Agree (x ∷ xs) (y ∷ ys) a = ap suc (length-Agree xs ys a.1)

  pub Agree-append :
      (xs ys zs ws : List A) → Agree R xs ys → Agree R zs ws → Agree R (xs ++ zs) (ys ++ ws)
  Agree-append [] [] zs ws a b = b
  Agree-append [] (y ∷ ys) zs ws a b = absurd a
  Agree-append (x ∷ xs) [] zs ws a b = absurd a
  Agree-append (x ∷ xs) (y ∷ ys) zs ws a b = (a.0, Agree-append xs ys zs ws a.1 b)

module _ {A : Type 0} (R : A → A → Type 0) (p : A → A → Bool)
    (sound : (x y : A) → p x y ≡ true → R x y) where
  -- Two lists agree as far as the test passes.
  pub run_both-Agree :
      (xs ys : List A) → Agree R (take (run_both p xs ys) xs) (take (run_both p xs ys) ys)
  unfolding run_both
  run_both-Agree [] ys = tt
  run_both-Agree (x ∷ xs) [] = tt
  run_both-Agree (x ∷ xs) (y ∷ ys) = elim (Bool-cases (p x y)) [
    | inl t ↦ rw t (sound x y t, run_both-Agree xs ys)
    | inr f ↦ rw f tt
  ]
