-- ===== src/ScriptModel/Steps.antt =====
-- What each branch of the loop keeps: the values behind the iterators match the new values behind
-- them, a view that applies what is announced has the model's values, and the loop comes nearer its end.
use mathlib.Core.List.{append_assoc}
use mcs_qs.Prelude.{
  take-drop, ℕ, ◌+◌, ◌-◌, ◌≤◌, ◌<◌, ◌≡◌, refl, arith, some, List, [], ◌∷◌, ◌++◌, length, take, drop,
  ap, sym, ◌∙◌, length-append, length-take, length-drop, subst,
}
use mcs_qs.ScriptModel.{
  ValueApi, Change, rows_removed, rows_inserted, rows_moved, data_changed, Cursor, move_rows,
  remove_rows, move_to_front, insert_new, replace_rows,
}
use mcs_qs.ScriptModel.Runs.{Agree, Agree-refl, Agree-append}
use mcs_qs.ScriptModel.Moves.{move_rows_lem, take_at, drop_at}
use mcs_qs.ScriptModel.Views.{view, view_all, view-removed, view-inserted, view-moved, view-changed}

module _ (api : ValueApi) where
  open api use {Value, equal}

  abbrev pub rows : Cursor api → List Value
  rows c = c.done ++ c.old

  abbrev pub ahead : Cursor api → ℕ
  ahead c = length c.old + length c.new

  module _ (R : Value → Value → Type 0) (R_refl : (v : Value) → R v v) (all : List Value) where
    -- The values behind the iterators are related, in their order, to the new values behind them.
    pub record Matches (c : Cursor api) : Type 0 where
      pub behind : List Value
      pub split : all ≡ behind ++ c.new
      pub agrees : Agree R c.done behind

    pub record Advances (c c' : Cursor api) (cs : List (Change Value)) : Type 0 where
      pub kept : Matches c'
      pub seen : view_all cs (rows c) ≡ some (rows c')
      pub nearer : ahead c' < ahead c

    pub view_one :
        (c : Change Value) (xs ys : List Value)
        → view c xs ≡ some ys
        → view_all (c ∷ []) xs ≡ some ys
    unfolding view_all
    view_one c xs ys e = rw (view_all, e) refl

    -- New values that the done ones are extended by.
    pub extend :
        (c : Cursor api) (items added new : List Value)
        → Matches c
        → c.new ≡ items ++ new
        → Agree R added items
        → (old : List Value) → Matches (record { done = c.done ++ added; old = old; new = new })
    extend c items added new m e k old = record {
      behind = m.behind ++ items;
      split = m.split ∙ rw (e, append_assoc m.behind items new) refl;
      agrees = Agree-append R c.done m.behind added items m.agrees k;
    }

    taken : (n : ℕ) (xs : List Value) → n ≤ length xs → length (take n xs) ≡ n
    taken n xs le = omega (arith, length-take n xs)

    pub removes :
        (c : Cursor api) (len : ℕ)
        → Matches c
        → 0 < len
        → len ≤ length c.old
        → Advances c (remove_rows api len c).0 ((remove_rows api len c).1 ∷ [])
    removes c len m some_rows le =
        let run = take len c.old in
        let after = drop len c.old in
        let l : length run ≡ len = taken len c.old le in
        let viewed = view-removed c.done run after (omega (arith, l)) in
        record {
          kept = record { behind = m.behind; split = m.split; agrees = m.agrees };
          seen = view_one _ _ _ (
              ap
                (λ xs. view (rows_removed (length c.done) (length c.done + len - 1)) (c.done ++ xs))
                (take-drop len c.old)
              ∙ subst
                  (λ k.
                    view (rows_removed (length c.done) (length c.done + k - 1))
                      (c.done ++ (run ++ after))
                    ≡ some (c.done ++ after))
                  l viewed);
          nearer = omega (arith, length-drop len c.old);
        }

    pub inserts :
        (c : Cursor api) (len : ℕ)
        → Matches c
        → 0 < len
        → len ≤ length c.new
        → Advances c (insert_new api len c).0 ((insert_new api len c).1 ∷ [])
    inserts c len m some_rows le =
        let run = take len c.new in
        let l : length run ≡ len = taken len c.new le in
        let viewed = view-inserted c.done run c.old (omega (arith, l)) in
        record {
          kept =
              extend c run run (drop len c.new) m (take-drop len c.new) (Agree-refl R R_refl run)
                c.old;
          seen = view_one _ _ _ (
              subst
                (λ k.
                  view (rows_inserted (length c.done) (length c.done + k - 1) run) (c.done ++ c.old)
                  ≡ some (c.done ++ (run ++ c.old)))
                l viewed
              ∙ ap some (sym (append_assoc c.done run c.old)));
          nearer = omega (arith, length-drop len c.new);
        }

    pub replaces :
        (c : Cursor api) (len : ℕ)
        → Matches c
        → 0 < len
        → len ≤ length c.old
        → len ≤ length c.new
        → Advances c (replace_rows api len c).0 ((replace_rows api len c).1 ∷ [])
    replaces c len m some_rows lo le =
        let run = take len c.old in
        let items = take len c.new in
        let after = drop len c.old in
        let l : length run ≡ len = taken len c.old lo in
        let li : length items ≡ len = taken len c.new le in
        let viewed =
          view-changed c.done run after (omega (arith, l)) items (omega (arith, l, li)) in
        record {
          kept =
              extend c items items (drop len c.new) m (take-drop len c.new)
                (Agree-refl R R_refl items) after;
          seen = view_one _ _ _ (
              ap
                (λ xs.
                  view (data_changed (length c.done) (length c.done + len - 1) items)
                    (c.done ++ xs))
                (take-drop len c.old)
              ∙ (subst
                    (λ k.
                      view (data_changed (length c.done) (length c.done + k - 1) items)
                        (c.done ++ (run ++ after))
                      ≡ some (c.done ++ (items ++ after)))
                    l viewed
                  ∙ ap some (sym (append_assoc c.done items after))));
          nearer = omega (arith, length-drop len c.new, length-drop len c.old);
        }

    -- Behind the rows that the move passes, the run is related to the new values.
    pub moves :
        (c : Cursor api) (between run after : List Value)
        → Matches c
        → c.old ≡ between ++ (run ++ after)
        → 0 < length run
        → 0 < length between
        → length run ≤ length c.new
        → Agree R run (take (length run) c.new)
        → Advances c
            (move_to_front api (length between) (length run) c).0
            ((move_to_front api (length between) (length run) c).1 ∷ [])
    moves c between run after m e hr hb le k =
        let moved : move_rows (length run) (length c.done + length between) (length c.done)
              (c.done ++ c.old)
            ≡ (c.done ++ run) ++ (between ++ after) =
          ap
            (λ xs.
              move_rows (length run) (length c.done + length between) (length c.done)
                (c.done ++ xs))
            e
          ∙ (move_rows_lem c.done between run after _ _ refl refl
              ∙ sym (append_assoc c.done run (between ++ after))) in
        let n : length c.done + length run ≡ length (c.done ++ run) =
          sym (length-append c.done run) in
        rw
          (
            moved,
            take_at (c.done ++ run) (between ++ after) _ n,
            drop_at (c.done ++ run) (between ++ after) _ n,
          )
          (record {
            kept =
                extend c (take (length run) c.new) run (drop (length run) c.new) m
                  (take-drop (length run) c.new) k (between ++ after);
            seen = view_one _ _ _ (
                ap
                  (λ xs.
                    view
                      (rows_moved (length c.done + length between)
                        (length c.done + length between + length run - 1) (length c.done))
                      (c.done ++ xs))
                  e
                ∙ (view-moved c.done between run after hr hb
                    ∙ ap some (sym (append_assoc c.done run (between ++ after)))));
            nearer = omega (
              arith,
              ap length e,
              length-append between (run ++ after),
              length-append run after,
              length-append between after,
              length-drop (length run) c.new,
            );
          })
