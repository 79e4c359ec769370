-- ===== src/ScriptModel/Results.antt =====
-- What an update leaves in the model, and what the views of the model see of it.
use mcs_qs.Prelude.{
  ℕ, zero, suc, ◌+◌, ◌<◌, ◌≡◌, refl, arith, true, false, some, List, [], ◌∷◌, ◌++◌, length, subst,
  ap, ◌⊎◌, sym,
}
use mathlib.Core.List.{append_assoc, append-nil}
use mcs_qs.ScriptModel.{
  ValueApi, Change, rows_moved, ScriptModel, variant_cmp, round, branch, update_loop,
  update_values_unique, mismatch, find_if, run_while, run_both, move_rows, move_row, insert_row,
}

module _ (api : ValueApi) where
  open api use {Value, equal}

  -- A row that stands for a new value: it is the value itself, or compares equal to it.
  unfoldable pub StandsFor : List ℕ → Value → Value → Type 0
  StandsFor k v w = (v ≡ w) ⊎ (variant_cmp api k v w ≡ true)

  -- `==` does not depend on the order of its sides.
  abbrev pub IsSymmetric : Type 0
  IsSymmetric = (a b : Value) → equal a b ≡ true → equal b a ≡ true

  -- The model after an update that left `values` and announced `cs`.
  abbrev pub updated : List Value → List (Change Value) → ScriptModel api → ScriptModel api
  updated values cs m = record m {
    values = values;
    changes = m.changes ++ cs;
    has_active_iterators = false;
  }

  -- Each of the values compares equal to itself, whole and by its key.
  abbrev pub AreThemselves : List ℕ → List Value → Type 0
  AreThemselves k [] = Unit {0}
  AreThemselves k (v ∷ vs) =
      (variant_cmp api k v v ≡ true) × ((equal v v ≡ true) × AreThemselves k vs)

  same_lists :
      (k : List ℕ) (all done xs : List Value) (fuel : ℕ)
      → AreThemselves k xs
      → length xs < fuel
      → update_loop api (variant_cmp api k) all fuel (record { done = done; old = xs; new = xs })
        ≡ some (done ++ xs, [])
  unfolding update_loop branch round
  same_lists k all done xs zero a h = absurd (omega arith)
  same_lists k all done [] (suc fuel) a h = ap (λ ys. some (ys, [])) (sym (append-nil done))
  same_lists k all done (x ∷ xs) (suc fuel) a h =
      rw
        (
          a.0,
          a.1.0,
          same_lists k all (done ++ x ∷ []) xs fuel a.1.1 (omega arith),
          append_assoc done (x ∷ []) xs,
        )
        refl

  -- Bringing a model to the values that it has announces nothing and changes no row, if each of them
  -- compares equal to itself, whole and by its key; setting the object property is such an update.
  pub update_values_unique-own :
      (m : ScriptModel api)
      → AreThemselves m.cmp_key m.values
      → update_values_unique api m.values m ≡ some (updated m.values [] m)
  unfolding update_values_unique
  update_values_unique-own m a =
      rw
        (
          update_values_unique,
          same_lists m.cmp_key m.values [] m.values (suc (length m.values + length m.values)) a
              (omega arith),
        )
        refl

  stale_loop :
      (k : List ℕ) (a b b' : Value) (rows : List Value)
      → rows ≡ a ∷ b ∷ []
      → variant_cmp api k b b' ≡ true
      → variant_cmp api k b' a ≡ false
      → variant_cmp api k a b' ≡ false
      → variant_cmp api k a a ≡ true
      → equal a a ≡ true
      → update_loop api
          (variant_cmp api k)
          (b' ∷ a ∷ [])
          (suc (length rows + 2))
          (record { done = []; old = rows; new = b' ∷ a ∷ [] })
        ≡ some (b ∷ a ∷ [], rows_moved 1 1 0 ∷ [])
  unfolding update_loop branch round mismatch find_if run_while run_both move_rows move_row
      insert_row
  stale_loop k a b b' rows v t1 f1 f2 t2 e =
      subst
        (λ vs.
          update_loop api (variant_cmp api k) (b' ∷ a ∷ []) (suc (length vs + 2))
            (record { done = []; old = vs; new = b' ∷ a ∷ [] })
          ≡ some (b ∷ a ∷ [], rows_moved 1 1 0 ∷ []))
        (sym v) (rw (f1, f2, t1, t2) (rw (t2, e) refl))

  -- If the second of two rows comes first in the new values, with a new value that compares equal to it
  -- and not to the first row, and the first row compares equal to itself, whole and by its key, then the
  -- second row is moved but not replaced: the model keeps the old value.
  pub update_values_unique-stale :
      (a b b' : Value) (m : ScriptModel api)
      → m.values ≡ a ∷ b ∷ []
      → variant_cmp api m.cmp_key b b' ≡ true
      → variant_cmp api m.cmp_key b' a ≡ false
      → variant_cmp api m.cmp_key a b' ≡ false
      → variant_cmp api m.cmp_key a a ≡ true
      → equal a a ≡ true
      → update_values_unique api (b' ∷ a ∷ []) m
        ≡ some (updated (b ∷ a ∷ []) (rows_moved 1 1 0 ∷ []) m)
  unfolding update_values_unique
  update_values_unique-stale a b b' m v t1 f1 f2 t2 e =
      rw (update_values_unique, stale_loop m.cmp_key a b b' m.values v t1 f1 f2 t2 e) refl
