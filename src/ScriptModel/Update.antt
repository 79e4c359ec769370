-- ===== src/ScriptModel/Update.antt =====
-- Updating a model to new values: the loop ends, the model has the new values, and every view follows.
use mathlib.Core.List.{append_assoc, append-nil}
use mcs_qs.Prelude.{
  take-drop, ℕ, zero, suc, ◌+◌, ◌-◌, ◌≤◌, ◌<◌, ◌≡◌, refl, arith, Bool, true, false, not, Option,
  some, List, [], ◌∷◌, ◌++◌, length, take, drop, Bool-cases, Option-cases, inl, inr, ap, sym, ◌∙◌,
  subst, length-append, length-take,
}
use mcs_qs.ScriptModel.{
  ValueApi, Change, rows_removed, rows_inserted, Cursor, find_if, is_absent, run_both,
  move_to_front, mismatch, round, branch, update_loop, with_changes,
}
use mcs_qs.ScriptModel.Runs.{
  find_if_split, run_while-le, run_both-le, Agree, Agree-refl, Agree-append, length-Agree,
  run_both-Agree,
}
use mcs_qs.ScriptModel.Moves.{drop_at}
use mcs_qs.ScriptModel.Views.{view, view_all, view-removed, view-inserted}
use mcs_qs.ScriptModel.Steps.{
  rows, ahead, Matches, Advances, extend, removes, inserts, replaces, moves, view_one,
}

module _ (api : ValueApi) where
  open api use {Value, equal}

  module _ (R : Value → Value → Type 0) (cmp : Value → Value → Bool) (R_refl : (v : Value) → R v v)
      (cmp_sound : (a b : Value) → cmp a b ≡ true → R a b)
      (cmp_sym : (a b : Value) → cmp a b ≡ true → cmp b a ≡ true) (all : List Value) where
    moves_at :
        (c : Cursor api) (between run after : List Value) (i len : ℕ)
        → length between ≡ i
        → length run ≡ len
        → Matches api R R_refl all c
        → c.old ≡ between ++ (run ++ after)
        → 0 < len
        → 0 < i
        → len ≤ length c.new
        → Agree R run (take len c.new)
        → Advances api R R_refl all c
            (move_to_front api i len c).0
            ((move_to_front api i len c).1 ∷ [])
    moves_at c between run after i len ei el m e hr hb le k =
        subst
          (λ i.
            Advances api R R_refl all c (move_to_front api i len c).0
              ((move_to_front api i len c).1 ∷ []))
          ei
          (subst
            (λ len.
              Advances api R R_refl all c (move_to_front api (length between) len c).0
                ((move_to_front api (length between) len c).1 ∷ []))
            el
            (moves api R R_refl all c between run after m e (omega (arith, el)) (omega (arith, ei))
              (omega (arith, el)) (subst (λ n. Agree R run (take n c.new)) (sym el) k)))

    first_behind :
        (x : Value) (xs : List Value) (y : Value)
        → cmp y x ≡ false
        → 0 < find_if (λ a. cmp a y) (x ∷ xs)
    unfolding find_if
    first_behind x xs y h = elim (Bool-cases (cmp x y)) [
      | inl t ↦ absurd (ground (arith, cmp_sym x y t))
      | inr f ↦ rw f (omega arith)
    ]

    mismatch_moves :
        (done : List Value) (x : Value) (xs : List Value) (y : Value) (ys : List Value)
        → cmp y x ≡ false
        → is_absent (λ a. cmp a y) (x ∷ xs) ≡ false
        → let c : Cursor api = record { done = done; old = x ∷ xs; new = y ∷ ys } in
          let i = find_if (λ a. cmp a y) (x ∷ xs) in
          let len = suc (run_both cmp (drop (suc i) (x ∷ xs)) ys) in
          Matches api R R_refl all c
          → Advances api R R_refl all c
              (move_to_front api i len c).0
              ((move_to_front api i len c).1 ∷ [])
    mismatch_moves done x xs y ys ne here m =
        let i : ℕ = find_if (λ a. cmp a y) (x ∷ xs) in
        let (z, (e, (t, (li, lt)))) = find_if_split (λ a. cmp a y) (x ∷ xs) here in
        let tail : List Value = drop (suc i) (x ∷ xs) in
        let n : ℕ = run_both cmp tail ys in
        let le = run_both-le cmp tail ys in
        moves_at (record { done = done; old = x ∷ xs; new = y ∷ ys }) (take i (x ∷ xs))
          (z ∷ take n tail) (drop n tail) i (suc n) li
          (ap suc (omega (arith, length-take n tail, le.0))) m
          (e ∙ ap (λ r. take i (x ∷ xs) ++ z ∷ r) (take-drop n tail)) (omega arith)
          (first_behind x xs y ne) (omega (arith, le.1))
          (cmp_sound z y t, run_both-Agree R cmp cmp_sound tail ys)

    mismatch-Advances :
        (done : List Value) (x : Value) (xs : List Value) (y : Value) (ys : List Value)
        → cmp y x ≡ false
        → let c : Cursor api = record { done = done; old = x ∷ xs; new = y ∷ ys } in
          Matches api R R_refl all c
          → Advances api R R_refl all c
              (mismatch api cmp all x xs y ys c).0
              ((mismatch api cmp all x xs y ys c).1 ∷ [])
    unfolding mismatch
    mismatch-Advances done x xs y ys ne m =
        let c : Cursor api = record { done = done; old = x ∷ xs; new = y ∷ ys } in
        elim (Bool-cases (is_absent (λ a. cmp a y) (x ∷ xs))) [
          | inl t ↦ rw t (
              inserts api R R_refl all c _ m (omega arith)
                (omega (arith, run_while-le (λ b. is_absent (λ a. cmp a b) (x ∷ xs)) ys)))
          | inr f ↦ elim (Bool-cases (is_absent (λ b. cmp b x) (y ∷ ys))) [
            | inl t ↦
                rw (f, t)
                  (removes api R R_refl all c _ m (omega arith)
                    (omega (arith, run_while-le (λ a. is_absent (λ b. cmp b a) (y ∷ ys)) xs)))
            | inr g ↦ rw (f, g) (mismatch_moves done x xs y ys ne f m)
          ]
        ]

    round-Advances :
        (done : List Value) (x : Value) (xs : List Value) (y : Value) (ys : List Value)
        → let c : Cursor api = record { done = done; old = x ∷ xs; new = y ∷ ys } in
          Matches api R R_refl all c
          → Advances api R R_refl all c
              (round api cmp all x xs y ys c).0
              (round api cmp all x xs y ys c).1
    unfolding round view_all
    round-Advances done x xs y ys m =
        let c : Cursor api = record { done = done; old = x ∷ xs; new = y ∷ ys } in
        elim (Bool-cases (cmp y x)) [
          | inr f ↦ rw f (mismatch-Advances done x xs y ys f m)
          | inl t ↦ elim (Bool-cases (equal y x)) [
            | inr f ↦
                rw (t, f)
                  (replaces api R R_refl all c _ m (omega arith)
                    (omega (arith, (run_both-le (λ a b. not (equal b a)) xs ys).0))
                    (omega (arith, (run_both-le (λ a b. not (equal b a)) xs ys).1)))
            | inl e ↦
                rw (t, e)
                  (record {
                    kept =
                        extend api R R_refl all c (y ∷ []) (x ∷ []) ys m refl
                          (cmp_sound x y (cmp_sym y x t), tt) xs;
                    seen = ap some (sym (append_assoc done (x ∷ []) xs));
                    nearer = omega arith;
                  })
          ]
        ]

    some_eq : (p q : List Value) → some p ≡ some q → p ≡ q
    some_eq p q e = ground (arith, e)

    view_all-append :
        (cs ds : List (Change Value)) (rows_before rows_between rows_after : List Value)
        → view_all cs rows_before ≡ some rows_between
        → view_all ds rows_between ≡ some rows_after
        → view_all (cs ++ ds) rows_before ≡ some rows_after
    unfolding view_all
    view_all-append [] ds p q r e f =
        subst (λ rows. view_all ds rows ≡ some r) (sym (some_eq p q e)) f
    view_all-append (c ∷ cs) ds p q r e f = elim (Option-cases (view c p)) [
      | inl g ↦ absurd (ground (arith, e, g))
      | inr (ys, g) ↦
          let e' : view_all cs ys ≡ some q = ground (arith, e, g) in
          rw (view_all, g) (view_all-append cs ds ys q r e' f)
    ]

    -- How the loop ends.
    pub record Ends (c : Cursor api) (result : Option (List Value × List (Change Value)))
        : Type 0 where
      pub values : List Value
      pub changes : List (Change Value)
      pub returns : result ≡ some (values, changes)
      pub agrees : Agree R values all
      pub seen : view_all changes (rows api c) ≡ some values

    behind-length :
        (c : Cursor api) (m : Matches api R R_refl all c) → length m.behind ≡ length c.done
    behind-length c m = sym (length-Agree R c.done m.behind m.agrees)

    branch-Ends :
        (loop : Cursor api → Option (List Value × List (Change Value))) (bound : ℕ)
        → ((c : Cursor api) → Matches api R R_refl all c → ahead api c < bound → Ends c (loop c))
        → (done old new : List Value)
        → let c : Cursor api = record { done = done; old = old; new = new } in
          Matches api R R_refl all c
          → ahead api c < suc bound
          → Ends c (branch api cmp all loop old new c)
    unfolding branch view_all
    branch-Ends loop bound ih done [] [] m h = record {
      values = done;
      changes = [];
      returns = refl;
      agrees = subst (Agree R done) (sym (m.split ∙ append-nil m.behind)) m.agrees;
      seen = ap some (append-nil done);
    }
    branch-Ends loop bound ih done (x ∷ xs) [] m h =
        let n : length all ≡ length done =
          ap length (m.split ∙ append-nil m.behind) ∙ behind-length _ m in
        record {
          values = done;
          changes = rows_removed (length all) (length done + suc (length xs) - 1) ∷ [];
          returns = refl;
          agrees = subst (Agree R done) (sym (m.split ∙ append-nil m.behind)) m.agrees;
          seen = rw n (
              view_one api R R_refl all _ _ _ (
                ap
                  (λ r.
                    view (rows_removed (length done) (length done + suc (length xs) - 1))
                      (done ++ r))
                  (sym (append-nil (x ∷ xs)))
                ∙ (view-removed done (x ∷ xs) [] (omega arith) ∙ ap some (append-nil done))));
        }
    branch-Ends loop bound ih done [] (y ∷ ys) m h =
        let items : drop (length done) all ≡ y ∷ ys =
          ap (drop (length done)) m.split
          ∙ drop_at m.behind (y ∷ ys) (length done) (sym (behind-length _ m)) in
        let n : length all ≡ length done + length (y ∷ ys) =
          ap length m.split ∙ omega (arith, length-append m.behind (y ∷ ys), behind-length _ m) in
        rw (items, n)
          (record {
            values = done ++ y ∷ ys;
            changes = rows_inserted (length done) (length done + length (y ∷ ys) - 1) (y ∷ ys) ∷ [];
            returns = refl;
            agrees = subst (Agree R (done ++ y ∷ ys)) (sym m.split) (
                Agree-append R done m.behind (y ∷ ys) (y ∷ ys) m.agrees
                  (Agree-refl R R_refl (y ∷ ys)));
            seen = view_one api R R_refl all _ _ _ (
                view-inserted done (y ∷ ys) [] (omega arith)
                ∙ ap (λ r. some (done ++ r)) (append-nil (y ∷ ys)));
          })
    branch-Ends loop bound ih done (x ∷ xs) (y ∷ ys) m h =
        let a = round-Advances done x xs y ys m in
        let e = ih _ a.kept (omega (arith, a.nearer, h)) in
        record {
          values = e.values;
          changes =
              (round api cmp all x xs y ys (record { done = done; old = x ∷ xs; new = y ∷ ys })).1
              ++ e.changes;
          returns = ap (with_changes api cmp all _) e.returns;
          agrees = e.agrees;
          seen = view_all-append _ e.changes _ _ e.values a.seen e.seen;
        }

    pub loop-Ends :
        (fuel : ℕ) (c : Cursor api)
        → Matches api R R_refl all c
        → ahead api c < fuel
        → Ends c (update_loop api cmp all fuel c)
    unfolding update_loop
    loop-Ends zero c m h = absurd (omega arith)
    loop-Ends (suc fuel) c m h =
        branch-Ends (update_loop api cmp all fuel) fuel (loop-Ends fuel) c.done c.old c.new m h
