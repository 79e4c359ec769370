-- ===== src/ObjectModel/Diff.antt =====
-- `diffUpdate` of core/model.hpp: its first loop keeps the objects of the new list, its second puts
-- them into the new order, and takes each from the rows behind it.
use mathlib.Core.List.{append_assoc, append-nil}
use mcs_qs.Prelude.{
  ℕ, zero, suc, ◌<◌, ◌≡◌, ◌⊎◌, inl, inr, Bool-cases, refl, arith, Bool, true, false, Option, none,
  some, List, [], ◌∷◌, ◌++◌, length, get_elem?, All, if◌then◌else◌, ap, sym, ◌∙◌, length-append,
}
use mcs_qs.ObjectModel.{ObjectModel, bind_model, remove_at, index_if, contains, keep_row, keep_loop}
use mcs_qs.ObjectModel.Rows.{Gives, bind_model-Gives, remove_at_lem, get_elem?_at}

pub get_elem?_end : {A : Type 0} (xs : List A) → get_elem? xs (length xs) ≡ none
get_elem?_end [] = refl
get_elem?_end (x ∷ xs) = get_elem?_end xs

pub length_snoc : {A : Type 0} (xs : List A) (x : A) → length (xs ++ x ∷ []) ≡ suc (length xs)
length_snoc xs x = omega (arith, length-append xs (x ∷ []))

pub Gives-of_eq :
    {A : Type 0} (o o' : Option (ObjectModel A)) (m : ObjectModel A) (ys : List A)
    → o ≡ o'
    → Gives o' m ys
    → Gives o m ys
Gives-of_eq o o' m ys e (m', e', v, follow) = (m', e ∙ e', v, follow)

pub Gives-values :
    {A : Type 0} (o : Option (ObjectModel A)) (m : ObjectModel A) (ys zs : List A)
    → ys ≡ zs
    → Gives o m ys
    → Gives o m zs
Gives-values o m ys zs e (m', e', v, follow) = (m', e', v ∙ e, follow)

module _ {A : Type 0} where
  -- The list without the first object that passes a test.
  unfoldable pub erase_if : (A → Bool) → List A → List A
  erase_if test [] = []
  erase_if test (y ∷ ys) = let rest = erase_if test ys in if test y then ys else y ∷ rest

  -- The place at which an object is found, and the list without it.
  pub index_if_lem :
      (test : A → Bool) (ys : List A)
      → ((index_if test ys ≡ none) × (erase_if test ys ≡ ys) × All (λ y. test y ≡ false) ys)
        ⊎ ((front : List A) × (z : A) × (after : List A) × (index_if test ys ≡ some (length front))
            × (ys ≡ front ++ z ∷ after)
            × (erase_if test ys ≡ front ++ after)
            × (test z ≡ true))
  unfolding index_if erase_if
  index_if_lem test [] = inl (refl, refl, tt)
  index_if_lem test (y ∷ ys) = elim (Bool-cases (test y)) [
    | inl t ↦ inr ([], y, ys, rw t refl, refl, rw t refl, t)
    | inr f ↦ elim (index_if_lem test ys) [
      | inl (missing, whole, fresh) ↦ inl (rw (f, missing) refl, rw (f, whole) refl, (f, fresh))
      | inr (front, z, after, found, e, rest, t) ↦
          inr (y ∷ front, z, after, rw (f, found) refl, ap (λ l. y ∷ l) e, rw (f, rest) refl, t)
    ]
  ]

  pub All_erase_if :
      (P : A → Type 0) (test : A → Bool) (ys : List A) → All P ys → All P (erase_if test ys)
  unfolding erase_if
  All_erase_if P test [] h = tt
  All_erase_if P test (y ∷ ys) (p, h) = elim (Bool-cases (test y)) [
    | inl t ↦ rw t h
    | inr f ↦ rw f (p, All_erase_if P test ys h)
  ]

module _ {A : Type 0} (same : A → A → Bool) where
  abbrev pub erase : A → List A → List A
  erase x = erase_if (same x)

  unfoldable pub erase_all : List A → List A → List A
  erase_all [] ys = ys
  erase_all (x ∷ xs) ys = erase_all xs (erase x ys)

  unfoldable pub kept : List A → List A → List A
  kept new [] = []
  kept new (x ∷ xs) = let rest = kept new xs in if contains same new x then x ∷ rest else rest

  -- No two places of the list hold the same object.
  abbrev pub Distinct : List A → Type 0
  Distinct [] = Unit {0}
  Distinct (x ∷ xs) = All (λ y. same x y ≡ false) xs × Distinct xs

  pub erase_if-Distinct :
      (test : A → Bool) (ys : List A) → Distinct ys → Distinct (erase_if test ys)
  unfolding erase_if
  erase_if-Distinct test [] d = tt
  erase_if-Distinct test (y ∷ ys) (fresh, d) = elim (Bool-cases (test y)) [
    | inl t ↦ rw t d
    | inr f ↦ rw f (All_erase_if (λ z. same y z ≡ false) test ys fresh, erase_if-Distinct test ys d)
  ]

  pub keep_loop_lem :
      (new ahead done : List A) (fuel : ℕ) (m : ObjectModel A)
      → length ahead < fuel
      → m.values_list ≡ done ++ ahead
      → Gives (keep_loop same new fuel (length done) m) m (done ++ kept new ahead)
  unfolding keep_loop keep_row kept
  keep_loop_lem new ahead done zero m lt e = absurd (omega arith)
  keep_loop_lem new [] done (suc fuel) m lt e =
      let end : get_elem? m.values_list (length done) ≡ none =
        ap (λ l. get_elem? l (length done)) (e ∙ append-nil done) ∙ get_elem?_end done in
      (m, ap (λ o. keep_row same (keep_loop same new fuel) new o (length done) m) end, e, λ xs h. h)
  keep_loop_lem new (x ∷ ahead) done (suc fuel) m lt e =
      let here : get_elem? m.values_list (length done) ≡ some x =
        ap (λ l. get_elem? l (length done)) e ∙ get_elem?_at done x ahead in
      let step = ap (λ o. keep_row same (keep_loop same new fuel) new o (length done) m) here in
      elim (Bool-cases (contains same new x)) [
        | inl t ↦
            let far : suc (length done) ≡ length (done ++ x ∷ []) = sym (length_snoc done x) in
            let a : (done ++ x ∷ []) ++ kept new ahead ≡ done ++ x ∷ kept new ahead =
              append_assoc done (x ∷ []) (kept new ahead) in
            Gives-of_eq _ _ m _ (step ∙ rw t refl ∙ ap (λ i. keep_loop same new fuel i m) far) (
              rw t (
                Gives-values _ m _ _ a (
                  keep_loop_lem new ahead (done ++ x ∷ []) fuel m (omega arith)
                    (e ∙ sym (append_assoc done (x ∷ []) ahead)))))
        | inr f ↦
            Gives-of_eq _
              (bind_model (remove_at (length done) m) (keep_loop same new fuel (length done))) m _
              (step ∙ rw f refl)
              (rw f (
                bind_model-Gives _ _ m (done ++ ahead) _ (remove_at_lem done x ahead m e)
                  (λ m' v. keep_loop_lem new ahead done fuel m' (omega arith) v)))
      ]
