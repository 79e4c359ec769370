-- ===== src/Clipboard/Entries.antt =====
-- The changes of the entries of wayland/data_control/history.cpp, as changes of a list of objects.
use mcs_qs.Clipboard.{
  ClipboardEntry, same_object, model_of, last_of, evict_loop, evict, move_to_top, remove_last,
}
use mcs_qs.ObjectModel.{ObjectModel, remove_object, removed_at, insert_object}
use mcs_qs.ObjectModel.Diff.{Gives-of_eq, Gives-values, erase_if, index_if_lem, Distinct}
use mcs_qs.ObjectModel.Rows.{
  Follows, Gives, bind_model-Gives, insert_at_lem, remove_at_lem, get_elem?_at,
}
use mcs_qs.Prelude.{
  ℕ, zero, suc, ◌≤◌, ◌<◌, ◌≡◌, ◌⊎◌, inl, inr, Bool-cases, refl, arith, Bool, true, false, some,
  List, [], ◌∷◌, ◌++◌, length, take, get_elem?, All, leb, ap, sym, subst, ◌∙◌, length-append,
  take-append_le,
}

module _ {A : Type 0} where
  last_of-snoc : (front : List A) (x : A) → last_of (front ++ x ∷ []) ≡ some x
  unfolding last_of
  last_of-snoc [] x = refl
  last_of-snoc (y ∷ []) x = refl
  last_of-snoc (y ∷ z ∷ front) x = last_of-snoc (z ∷ front) x

  snoc_cases : (xs : List A) → (xs ≡ []) ⊎ ((front : List A) × (x : A) × (xs ≡ front ++ x ∷ []))
  snoc_cases [] = inl refl
  snoc_cases (y ∷ xs) = elim (snoc_cases xs) [
    | inl e ↦ inr ([], y, ap (λ l. y ∷ l) e)
    | inr (front, x, e) ↦ inr (y ∷ front, x, ap (λ l. y ∷ l) e)
  ]

  pub take_whole : (n : ℕ) (xs : List A) → length xs ≤ n → take n xs ≡ xs
  take_whole zero [] h = refl
  take_whole zero (x ∷ xs) h = absurd (omega arith)
  take_whole (suc n) [] h = refl
  take_whole (suc n) (x ∷ xs) h = ap (λ l. x ∷ l) (take_whole n xs (omega arith))

  All_front : (P : A → Type 0) (xs ys : List A) → All P (xs ++ ys) → All P xs
  All_front P [] ys h = tt
  All_front P (x ∷ xs) ys (p, h) = (p, All_front P xs ys h)

  All_last : (P : A → Type 0) (xs : List A) (y : A) → All P (xs ++ y ∷ []) → P y
  All_last P [] y (p, h) = p
  All_last P (x ∷ xs) y (p, h) = All_last P xs y h

  -- An object is taken off the list, if it is in it.
  pub remove_object_lem :
      (same : A → A → Bool) (x : A) (m : ObjectModel A)
      → (m' : ObjectModel A) × (found : Bool) × (remove_object same x m ≡ some (m', found))
        × (m'.values_list ≡ erase_if (same x) m.values_list)
        × ((xs : List A) → Follows xs m → Follows xs m')
  unfolding remove_object
  remove_object_lem same x m = elim (index_if_lem (same x) m.values_list) [
    | inl (missing, whole, fresh) ↦
        (m, false, ap (λ o. removed_at o m) missing, sym whole, λ xs h. h)
    | inr (front, z, after, found, cut, rest, t) ↦
        let (m', e, v, follow) = remove_at_lem front z after m cut in
        (m', true, ap (λ o. removed_at o m) found ∙ rw (removed_at, e) refl, v ∙ sym rest, follow)
  ]

same_object_comm : (a b : ClipboardEntry) → same_object a b ≡ same_object b a
same_object_comm a b = ground arith

same_object_self : (a : ClipboardEntry) → same_object a a ≡ true
same_object_self a = ground arith

Distinct-front :
    (xs ys : List ClipboardEntry) → Distinct same_object (xs ++ ys) → Distinct same_object xs
Distinct-front [] ys d = tt
Distinct-front (x ∷ xs) ys (fresh, d) =
    (All_front (λ y. same_object x y ≡ false) xs ys fresh, Distinct-front xs ys d)

erase_last :
    (front : List ClipboardEntry) (x : ClipboardEntry)
    → Distinct same_object (front ++ x ∷ [])
    → erase_if (same_object x) (front ++ x ∷ []) ≡ front
unfolding erase_if
erase_last [] x d = rw (same_object_self x) refl
erase_last (y ∷ front) x (fresh, d) =
    let other : same_object x y ≡ false =
      same_object_comm x y ∙ All_last (λ z. same_object y z ≡ false) front x fresh in
    rw other (ap (λ l. y ∷ l) (erase_last front x d))

remove_last_lem :
    (front : List ClipboardEntry) (x : ClipboardEntry) (m : ObjectModel ClipboardEntry)
    → m.values_list ≡ front ++ x ∷ []
    → Distinct same_object (front ++ x ∷ [])
    → Gives (model_of (remove_object same_object x m)) m front
remove_last_lem front x m e d =
    let (m', found, o, v, follow) = remove_object_lem same_object x m in
    (m', ap model_of o, v ∙ ap (erase_if (same_object x)) e ∙ erase_last front x d, follow)

-- The loop that removes the last entry leaves the first ones.
evict_loop_lem :
    (limit fuel : ℕ) (xs : List ClipboardEntry) (m : ObjectModel ClipboardEntry)
    → length xs < fuel
    → m.values_list ≡ xs
    → Distinct same_object xs
    → Gives (evict_loop (suc limit) fuel m) m (take limit xs)
unfolding evict_loop
evict_loop_lem limit zero xs m lt e d = absurd (omega arith)
evict_loop_lem limit (suc fuel) xs m lt e d = elim (Bool-cases (leb (suc limit) (length xs))) [
  | inr f ↦
      let stay : leb (suc limit) (length m.values_list) ≡ false =
        ap (λ l. leb (suc limit) (length l)) e ∙ f in
      (m, rw stay refl, e ∙ sym (take_whole limit xs (ground arith)), λ ys h. h)
  | inl t ↦ elim (snoc_cases xs) [
    | inl nil ↦ absurd (ground (arith, ap length nil))
    | inr (front, x, cut) ↦
        let go : leb (suc limit) (length m.values_list) ≡ true =
          ap (λ l. leb (suc limit) (length l)) e ∙ t in
        let last : last_of m.values_list ≡ some x = ap last_of (e ∙ cut) ∙ last_of-snoc front x in
        let size : length xs ≡ suc (length front) =
          ap length cut ∙ omega (arith, length-append front (x ∷ [])) in
        let d' = subst (Distinct same_object) cut d in
        let shorter : take limit front ≡ take limit xs =
          sym (take-append_le limit front (x ∷ []) (ground arith)) ∙ ap (take limit) (sym cut) in
        Gives-of_eq _ _ m _ (rw go (ap (λ o. remove_last (evict_loop (suc limit) fuel) o m) last)) (
          Gives-values _ m _ _ shorter (
            bind_model-Gives _ _ m front _ (remove_last_lem front x m (e ∙ cut) d') (λ m' v.
              evict_loop_lem limit fuel front m' (omega (arith, size)) v
                (Distinct-front front (x ∷ []) d'))))
  ]
]

pub evict_lem :
    (limit : ℕ) (m : ObjectModel ClipboardEntry)
    → Distinct same_object m.values_list
    → Gives (evict (suc limit) m) m (take limit m.values_list)
unfolding evict
evict_lem limit m d =
    evict_loop_lem limit (suc (length m.values_list)) m.values_list m (omega arith) refl d

-- The entry at the place that was found comes to the top.
pub move_to_top_lem :
    (test : ClipboardEntry → Bool) (front : List ClipboardEntry) (z : ClipboardEntry)
    (after : List ClipboardEntry) (m : ObjectModel ClipboardEntry)
    → m.values_list ≡ front ++ z ∷ after
    → erase_if test m.values_list ≡ front ++ after
    → Gives
        (move_to_top (length front) (get_elem? m.values_list (length front)) m)
        m
        (z ∷ erase_if test m.values_list)
unfolding move_to_top insert_object
move_to_top_lem test front z after m cut rest =
    let found : get_elem? m.values_list (length front) ≡ some z =
      ap (λ l. get_elem? l (length front)) cut ∙ get_elem?_at front z after in
    Gives-of_eq _ _ m _ (ap (λ o. move_to_top (length front) o m) found) (
      Gives-values _ m _ _ (ap (λ l. z ∷ l) (sym rest)) (
        bind_model-Gives _ _ m (front ++ after) _ (remove_at_lem front z after m cut)
          (λ m' v. insert_at_lem [] (front ++ after) z m' v)))
