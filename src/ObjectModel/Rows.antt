-- ===== src/ObjectModel/Rows.antt =====
-- The changes of single rows, and a view that follows what the model announces.
use mcs_qs.Prelude.{
  suc, ◌+◌, ◌-◌, ◌≡◌, true, inl, inr, Option-cases, refl, arith, Option, none, some, List, [], ◌∷◌,
  ◌++◌, length, take, drop, get_elem?, leb, ap, sym, ◌∙◌, length-append, take-length_append,
  drop-length_append,
}
use mcs_qs.ObjectModel.{
  Signal, bind_model, removed_if, rows_change, object_inserted_pre, object_inserted_post,
  object_removed_pre, object_removed_post, values_changed, ObjectModel, inserted, removed,
  insert_at, remove_at,
}
use mcs_qs.ScriptModel.{Change, rows_removed, rows_inserted}
use mcs_qs.ScriptModel.Views.{view, view_all, view-removed, view-inserted}

module _ {A : Type 0} where
  -- The changes of rows among the signals.
  unfoldable pub announced : List (Signal A) → List (Change A)
  announced [] = []
  announced (rows_change c ∷ s) = c ∷ announced s
  announced (object_inserted_pre x i ∷ s) = announced s
  announced (object_inserted_post x i ∷ s) = announced s
  announced (object_removed_pre x i ∷ s) = announced s
  announced (object_removed_post x i ∷ s) = announced s
  announced (values_changed ∷ s) = announced s

  announced-append : (s t : List (Signal A)) → announced (s ++ t) ≡ announced s ++ announced t
  unfolding announced
  announced-append [] t = refl
  announced-append (rows_change c ∷ s) t = ap (λ r. c ∷ r) (announced-append s t)
  announced-append (object_inserted_pre x i ∷ s) t = announced-append s t
  announced-append (object_inserted_post x i ∷ s) t = announced-append s t
  announced-append (object_removed_pre x i ∷ s) t = announced-append s t
  announced-append (object_removed_post x i ∷ s) t = announced-append s t
  announced-append (values_changed ∷ s) t = announced-append s t

  abbrev view_more : List (Change A) → Option (List A) → Option (List A)
  view_more cs none = none
  view_more cs (some ys) = view_all cs ys

  view_all-append :
      (cs ds : List (Change A)) (xs : List A)
      → view_all (cs ++ ds) xs ≡ view_more ds (view_all cs xs)
  unfolding view_all
  view_all-append [] ds xs = refl
  view_all-append (c ∷ cs) ds xs = elim (Option-cases (view c xs)) [
    | inl e ↦ rw (e, view_all) refl
    | inr (ys, e) ↦ rw (e, view_all) (view_all-append cs ds ys)
  ]

  -- A view that held `xs` at first, and applied all the changes of rows, holds the model's values.
  abbrev pub Follows : List A → ObjectModel A → Type 0
  Follows xs m = view_all (announced m.signals) xs ≡ some m.values_list

  -- An operation on `m` gives a model with the values `ys`, and a view that follows `m` follows it.
  abbrev pub Gives : Option (ObjectModel A) → ObjectModel A → List A → Type 0
  Gives o m ys =
      (m' : ObjectModel A) × (o ≡ some m')
      × (m'.values_list ≡ ys)
      × ((xs : List A) → Follows xs m → Follows xs m')

  pub bind_model-Gives :
      (o : Option (ObjectModel A)) (f : ObjectModel A → Option (ObjectModel A)) (m : ObjectModel A)
      (ys zs : List A)
      → Gives o m ys
      → ((m' : ObjectModel A) → m'.values_list ≡ ys → Gives (f m') m' zs)
      → Gives (bind_model o f) m zs
  bind_model-Gives o f m ys zs (m', e, v, follow) next =
      let (m'', e', v', follow') = next m' v in
      (m'', ap (λ p. bind_model p f) e ∙ e', v', λ xs h. follow' xs (follow xs h))

  follows_more :
      (s t : List (Signal A)) (xs ys : List A)
      → view_all (announced s) xs ≡ some ys
      → view_all (announced (s ++ t)) xs ≡ view_all (announced t) ys
  follows_more s t xs ys h =
      ap (λ cs. view_all cs xs) (announced-append s t)
      ∙ view_all-append (announced s) (announced t) xs
      ∙ ap (view_more (announced t)) h

  view_all_one :
      (c : Change A) (xs ys : List A) → view c xs ≡ some ys → view_all (c ∷ []) xs ≡ some ys
  unfolding view_all
  view_all_one c xs ys h = rw (h, view_all) refl

  drop-suc :
      (front : List A) (x : A) (after : List A)
      → drop (suc (length front)) (front ++ x ∷ after) ≡ after
  drop-suc [] x after = refl
  drop-suc (z ∷ front) x after = drop-suc front x after

  pub get_elem?_at :
      (front : List A) (x : A) (after : List A)
      → get_elem? (front ++ x ∷ after) (length front) ≡ some x
  get_elem?_at [] x after = refl
  get_elem?_at (z ∷ front) x after = get_elem?_at front x after

  pub insert_at_lem :
      (front after : List A) (x : A) (m : ObjectModel A)
      → m.values_list ≡ front ++ after
      → Gives (insert_at (length front) x m) m (front ++ x ∷ after)
  unfolding insert_at announced
  insert_at_lem front after x m e =
      let fits : leb (length front) (length m.values_list) ≡ true =
        ap (λ l. leb (length front) (length l)) e ∙ ground (arith, length-append front after) in
      let last : length front + 1 - 1 ≡ length front = omega arith in
      let cut : take (length front) m.values_list ++ x ∷ drop (length front) m.values_list
          ≡ front ++ x ∷ after =
        ap (λ l. take (length front) l ++ x ∷ drop (length front) l) e
        ∙ rw (take-length_append front after, drop-length_append front after) refl in
      let seen : view (rows_inserted (length front) (length front) (x ∷ [])) (front ++ after)
          ≡ some (front ++ x ∷ after) =
        ap (λ k. view (rows_inserted (length front) k (x ∷ [])) (front ++ after)) (sym last)
        ∙ view-inserted front (x ∷ []) after (omega arith) in
      (
        inserted (length front) x m,
        rw fits refl,
        cut,
        λ xs h.
            follows_more m.signals _ xs (front ++ after) (h ∙ ap some e)
            ∙ view_all_one _ (front ++ after) (front ++ x ∷ after) seen
            ∙ ap some (sym cut),
      )

  pub remove_at_lem :
      (front : List A) (x : A) (after : List A) (m : ObjectModel A)
      → m.values_list ≡ front ++ x ∷ after
      → Gives (remove_at (length front) m) m (front ++ after)
  unfolding remove_at announced
  remove_at_lem front x after m e =
      let found : get_elem? m.values_list (length front) ≡ some x =
        ap (λ l. get_elem? l (length front)) e ∙ get_elem?_at front x after in
      let last : length front + 1 - 1 ≡ length front = omega arith in
      let cut : take (length front) m.values_list ++ drop (suc (length front)) m.values_list
          ≡ front ++ after =
        ap (λ l. take (length front) l ++ drop (suc (length front)) l) e
        ∙ rw (take-length_append front (x ∷ after), drop-suc front x after) refl in
      let seen : view (rows_removed (length front) (length front)) (front ++ x ∷ after)
          ≡ some (front ++ after) =
        ap (λ k. view (rows_removed (length front) k) (front ++ x ∷ after)) (sym last)
        ∙ view-removed front (x ∷ []) after (omega arith) in
      (
        removed (length front) x m,
        ap (λ o. removed_if o (length front) m) found,
        cut,
        λ xs h.
            follows_more m.signals _ xs (front ++ x ∷ after) (h ∙ ap some e)
            ∙ view_all_one _ (front ++ x ∷ after) (front ++ after) seen
            ∙ ap some (sym cut),
      )
