-- ===== src/ObjectModel/Update.antt =====
-- The second loop of `diffUpdate` of core/model.hpp, and the whole of it.
use mathlib.Core.List.{append_assoc, append-nil}
use mcs_qs.Prelude.{
  suc, ◌+◌, ◌≡◌, ◌↔◌, inl, inr, Bool-cases, refl, arith, Bool, true, false, none, some, List, [],
  ◌∷◌, ◌++◌, length, drop, get_elem?, All, ap, sym, ◌∙◌, length-append, drop-length_append,
}
use mcs_qs.ObjectModel.{
  ObjectModel, bind_model, insert_object, remove_at, index_of, contains, drop_old, is_at, place,
  place_loop, diff_update,
}
use mcs_qs.ObjectModel.Rows.{Gives, bind_model-Gives, insert_at_lem, remove_at_lem, get_elem?_at}
use mcs_qs.ObjectModel.Diff.{
  get_elem?_end, Gives-of_eq, Gives-values, length_snoc, erase, erase_all, kept, Distinct,
  index_if_lem, erase_if, All_erase_if, erase_if-Distinct, keep_loop_lem,
}

module _ {A : Type 0} (same : A → A → Bool)
    (same_iff : (a b : A) → (same a b ≡ true) ↔ (a ≡ b)) where
  drop_old_lem :
      (x : A) (done ahead : List A) (m : ObjectModel A)
      → m.values_list ≡ done ++ ahead
      → Gives (drop_old (index_of same x ahead) (length done) m) m (done ++ erase same x ahead)
  unfolding drop_old
  drop_old_lem x done ahead m e = elim (index_if_lem (same x) ahead) [
    | inl (missing, whole, _) ↦ (
      m,
      ap (λ o. drop_old o (length done) m) missing,
      e ∙ ap (λ l. done ++ l) (sym whole),
      λ xs h. h,
    )
    | inr (front, z, after, found, cut, rest, _) ↦
        Gives-values _ m ((done ++ front) ++ after) _
          (append_assoc done front after ∙ ap (λ l. done ++ l) (sym rest))
          (Gives-of_eq _ (remove_at (length (done ++ front)) m) m _
            (ap (λ o. drop_old o (length done) m) found
              ∙ ap (λ i. remove_at i m) (sym (length-append done front)))
            (remove_at_lem (done ++ front) z after m
              (e ∙ ap (λ l. done ++ l) cut ∙ sym (append_assoc done front (z ∷ after)))))
  ]

  -- The object is put at its row, and the rows behind it stay in order.
  moved :
      (x : A) (done ahead : List A) (m : ObjectModel A)
      → m.values_list ≡ done ++ ahead
      → Gives
          (bind_model
            (drop_old (index_of same x (drop (length done) m.values_list)) (length done) m)
            (insert_object x (some (length done))))
          m
          (done ++ x ∷ erase same x ahead)
  unfolding insert_object
  moved x done ahead m e =
      let rest : drop (length done) m.values_list ≡ ahead =
        ap (drop (length done)) e ∙ drop-length_append done ahead in
      bind_model-Gives _ _ m (done ++ erase same x ahead) _
        (Gives-of_eq _ _ m _ (ap (λ l. drop_old (index_of same x l) (length done) m) rest)
          (drop_old_lem x done ahead m e))
        (λ m' v. insert_at_lem done (erase same x ahead) x m' v)

  place_lem :
      (x : A) (done ahead : List A) (m : ObjectModel A)
      → m.values_list ≡ done ++ ahead
      → Gives (place same x (length done) m) m (done ++ x ∷ erase same x ahead)
  unfolding place is_at
  place_lem x done [] m e =
      let end : get_elem? m.values_list (length done) ≡ none =
        ap (λ l. get_elem? l (length done)) (e ∙ append-nil done) ∙ get_elem?_end done in
      Gives-of_eq _ _ m _ (rw (end, is_at) refl) (moved x done [] m e)
  place_lem x done (y ∷ ys) m e =
      let here : get_elem? m.values_list (length done) ≡ some y =
        ap (λ l. get_elem? l (length done)) e ∙ get_elem?_at done y ys in
      elim (Bool-cases (same x y)) [
        | inl t ↦
            let b : x ≡ y = (same_iff x y).0 t in
            let behind : erase same x (y ∷ ys) ≡ ys = unfold erase_if in rw t refl in
            (
              m,
              rw (here, is_at, t) refl,
              e ∙ ap (λ z. done ++ z ∷ ys) (sym b) ∙ ap (λ l. done ++ x ∷ l) (sym behind),
              λ xs h. h,
            )
        | inr f ↦ Gives-of_eq _ _ m _ (rw (here, is_at, f) refl) (moved x done (y ∷ ys) m e)
      ]

  place_loop_lem :
      (new done ahead : List A) (m : ObjectModel A)
      → m.values_list ≡ done ++ ahead
      → Gives (place_loop same new (length done) m) m (done ++ (new ++ erase_all same new ahead))
  unfolding place_loop erase_all
  place_loop_lem [] done ahead m e = (m, refl, e, λ xs h. h)
  place_loop_lem (x ∷ new) done ahead m e =
      let far : length done + 1 ≡ length (done ++ x ∷ []) = omega (arith, length_snoc done x) in
      let rest = erase_all same new (erase same x ahead) in
      bind_model-Gives _ _ m (done ++ x ∷ erase same x ahead) _ (place_lem x done ahead m e) λ m' v.
        Gives-of_eq _ _ m' _ (ap (λ i. place_loop same new i m') far) (
          Gives-values _ m' _ _ (append_assoc done (x ∷ []) (new ++ rest)) (
            place_loop_lem new (done ++ x ∷ []) (erase same x ahead) m'
              (v ∙ sym (append_assoc done (x ∷ []) (erase same x ahead)))))

  abbrev Held : List A → List A → Type 0
  Held new = All (λ y. contains same new y ≡ true)

  All_kept : (P : A → Type 0) (new xs : List A) → All P xs → All P (kept same new xs)
  unfolding kept
  All_kept P new [] h = tt
  All_kept P new (x ∷ xs) (p, h) = elim (Bool-cases (contains same new x)) [
    | inl t ↦ rw t (p, All_kept P new xs h)
    | inr f ↦ rw f (All_kept P new xs h)
  ]

  kept-Held : (new xs : List A) → Held new (kept same new xs)
  unfolding kept
  kept-Held new [] = tt
  kept-Held new (x ∷ xs) = elim (Bool-cases (contains same new x)) [
    | inl t ↦ rw t (t, kept-Held new xs)
    | inr f ↦ rw f (kept-Held new xs)
  ]

  kept-Distinct : (new xs : List A) → Distinct same xs → Distinct same (kept same new xs)
  unfolding kept
  kept-Distinct new [] d = tt
  kept-Distinct new (x ∷ xs) (fresh, d) = elim (Bool-cases (contains same new x)) [
    | inl t ↦ rw t (All_kept (λ y. same x y ≡ false) new xs fresh, kept-Distinct new xs d)
    | inr f ↦ rw f (kept-Distinct new xs d)
  ]

  Held-other :
      (x : A) (new ys : List A) → All (λ y. same x y ≡ false) ys → Held (x ∷ new) ys → Held new ys
  unfolding contains
  Held-other x new [] fresh h = tt
  Held-other x new (y ∷ ys) (f, fresh) (p, h) = (ground (arith, f, p), Held-other x new ys fresh h)

  -- An object that was erased from a list without repetitions is not in it.
  erase_fresh :
      (x : A) (ys : List A) → Distinct same ys → All (λ y. same x y ≡ false) (erase same x ys)
  unfolding erase_if
  erase_fresh x [] d = tt
  erase_fresh x (y ∷ ys) (fresh, d) = elim (Bool-cases (same x y)) [
    | inl t ↦ rw (t, (same_iff x y).0 t) fresh
    | inr f ↦ rw f (f, erase_fresh x ys d)
  ]

  erase_all_nil : (new ys : List A) → Distinct same ys → Held new ys → erase_all same new ys ≡ []
  unfolding erase_all contains
  erase_all_nil [] [] d h = refl
  erase_all_nil [] (y ∷ ys) d (p, h) = cc
  erase_all_nil (x ∷ new) ys d h =
      erase_all_nil new (erase same x ys) (erase_if-Distinct same (same x) ys d) (
        Held-other x new (erase same x ys) (erase_fresh x ys d)
          (All_erase_if (λ y. contains same (x ∷ new) y ≡ true) (same x) ys h))

  -- `diffUpdate` never leaves its rows: it ends with a model, and a view that followed the model before
  -- it, by the rows that are announced, follows it after it. If no object stands twice in the old list,
  -- the model then has the new values, in their order, also where the new values repeat an object.
  pub diff_update_lem :
      (new : List A) (m : ObjectModel A)
      → Distinct same m.values_list
      → Gives (diff_update same new m) m new
  unfolding diff_update
  diff_update_lem new m d =
      let start =
        keep_loop_lem same new m.values_list [] (suc (length m.values_list)) m (omega arith) refl in
      let nil =
        erase_all_nil new (kept same new m.values_list) (kept-Distinct new m.values_list d)
          (kept-Held new m.values_list) in
      Gives-values _ m (new ++ erase_all same new (kept same new m.values_list)) _
        (ap (λ l. new ++ l) nil ∙ append-nil new)
        (bind_model-Gives _ _ m (kept same new m.values_list) _ start
          (λ m' v. place_loop_lem new [] (kept same new m.values_list) m' v))
