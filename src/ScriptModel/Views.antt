-- ===== src/ScriptModel/Views.antt =====
-- A view that holds rows and applies the changes that the model announces.
use mathlib.Core.List.{append_assoc}
use mcs_qs.Prelude.{
  ℕ, suc, ◌+◌, ◌-◌, ◌<◌, ◌≡◌, refl, arith, Bool, true, ◌&&◌, Option, none, some, List, [], ◌∷◌,
  ◌++◌, length, take, drop, ltb, leb, ◌==◌, if◌then◌else◌, ap, sym, ◌∙◌, length-append,
}
use mcs_qs.ScriptModel.{Change, rows_removed, rows_inserted, rows_moved, data_changed}
use mcs_qs.ScriptModel.Moves.{take_at, drop_at}

module _ {V : Type 0} where
  abbrev checked : Bool → List V → Option (List V)
  checked ok xs = if ok then some xs else none

  -- `none` if a row is out of range, the rows are not as many as the range, or a move is not to the front.
  unfoldable pub view : Change V → List V → Option (List V)
  view (rows_removed first last) xs =
      checked (leb first last && ltb last (length xs)) (take first xs ++ drop (suc last) xs)
  view (rows_inserted first last items) xs =
      checked (leb first last && (leb first (length xs) && suc last == first + length items))
        (take first xs ++ (items ++ drop first xs))
  view (rows_moved first last to) xs =
      checked (leb first last && (ltb last (length xs) && ltb to first)) (
        take to xs
        ++ (take (suc last - first) (drop first xs)
            ++ (drop to (take first xs) ++ drop (suc last) xs)))
  view (data_changed first last items) xs =
      checked (leb first last && (ltb last (length xs) && suc last == first + length items))
        (take first xs ++ (items ++ drop (suc last) xs))

  unfoldable pub view_all : List (Change V) → List V → Option (List V)
  view_all [] xs = some xs
  view_all (c ∷ cs) xs = elim (view c xs) [ none ↦ none | some ys ↦ view_all cs ys ]

  checked_lem : (ok : Bool) (xs ys : List V) → ok ≡ true → xs ≡ ys → checked ok xs ≡ some ys
  checked_lem ok xs ys h e = rw (h, e) refl

  module _ (front run after : List V) (some_rows : 0 < length run) where
    abbrev first : ℕ
    first = length front

    abbrev last : ℕ
    last = length front + length run - 1

    whole : length (front ++ (run ++ after)) ≡ length front + (length run + length after)
    whole = omega (arith, length-append front (run ++ after), length-append run after)

    behind : drop (suc last) (front ++ (run ++ after)) ≡ after
    behind =
        rw (sym (append_assoc front run after))
          (drop_at (front ++ run) after (suc last) (omega (arith, length-append front run)))

    pub view-removed :
        view (rows_removed first last) (front ++ (run ++ after)) ≡ some (front ++ after)
    unfolding view
    view-removed =
        checked_lem _ _ _ (ground (arith, whole))
          (rw (take_at front (run ++ after) first refl, behind) refl)

    pub view-inserted :
        view (rows_inserted first last run) (front ++ after) ≡ some (front ++ (run ++ after))
    unfolding view
    view-inserted =
        checked_lem _ _ _ (ground (arith, length-append front after))
          (rw (take_at front after first refl, drop_at front after first refl) refl)

    pub view-changed :
        (items : List V)
        → length items ≡ length run
        → view (data_changed first last items) (front ++ (run ++ after))
          ≡ some (front ++ (items ++ after))
    unfolding view
    view-changed items e =
        checked_lem _ _ _ (ground (arith, whole))
          (rw (take_at front (run ++ after) first refl, behind) refl)

  pub view-moved :
      (front between run after : List V)
      → 0 < length run
      → 0 < length between
      → view
          (rows_moved
            (length front + length between)
            (length front + length between + length run - 1)
            (length front))
          (front ++ (between ++ (run ++ after)))
        ≡ some (front ++ (run ++ (between ++ after)))
  unfolding view
  view-moved front between run after hr hb =
      let f : length (front ++ between) ≡ length front + length between =
        length-append front between in
      let n : length (front ++ (between ++ (run ++ after)))
          ≡ length front + (length between + (length run + length after)) =
        omega (
          arith,
          length-append front (between ++ (run ++ after)),
          length-append between (run ++ after),
          length-append run after,
        ) in
      let a : front ++ (between ++ (run ++ after)) ≡ (front ++ between) ++ (run ++ after) =
        sym (append_assoc front between (run ++ after)) in
      let taken : take (length front + length between) (front ++ (between ++ (run ++ after)))
          ≡ front ++ between =
        ap (take (length front + length between)) a
        ∙ take_at (front ++ between) (run ++ after) (length front + length between) (sym f) in
      let dropped : drop (length front + length between) (front ++ (between ++ (run ++ after)))
          ≡ run ++ after =
        ap (drop (length front + length between)) a
        ∙ drop_at (front ++ between) (run ++ after) (length front + length between) (sym f) in
      let behind_all : drop (suc (length front + length between + length run - 1))
            (front ++ (between ++ (run ++ after)))
          ≡ after =
        ap (drop (suc (length front + length between + length run - 1)))
          (a ∙ sym (append_assoc (front ++ between) run after))
        ∙ drop_at ((front ++ between) ++ run) after
            (suc (length front + length between + length run - 1))
            (omega (arith, f, length-append (front ++ between) run)) in
      let width : suc (length front + length between + length run - 1)
            - (length front + length between)
          ≡ length run =
        omega arith in
      checked_lem _ _ _ (ground (arith, n)) (
        rw
          (
            take_at front (between ++ (run ++ after)) (length front) refl,
            taken,
            dropped,
            behind_all,
            width,
            take_at run after (length run) refl,
            drop_at front between (length front) refl,
          )
          refl)
