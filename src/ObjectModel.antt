-- ===== src/ObjectModel.antt =====
-- `ObjectModel` of core/model.hpp: a list of objects behind a list model, with the signals that each
-- change sends. A row that is out of range, where the source asserts, is `none`.
pub mod Rows
pub mod Diff
pub mod Update
use mcs_qs.Prelude.{
  ℕ, zero, suc, ◌+◌, Bool, true, false, ◌||◌, not, Option, none, some, List, [], ◌∷◌, ◌++◌, length,
  take, drop, get_elem?, leb, ◌==◌, if◌then◌else◌,
}
use mcs_qs.ScriptModel.{Change, rows_removed, rows_inserted}

pub data Signal (A : Type 0) : Type 0 where
  object_inserted_pre : A → ℕ → Signal A
  object_inserted_post : A → ℕ → Signal A
  object_removed_pre : A → ℕ → Signal A
  object_removed_post : A → ℕ → Signal A
  rows_change : Change A → Signal A
  values_changed : Signal A

pub record ObjectModel (A : Type 0) : Type 0 where
  pub values_list : List A
  pub signals : List (Signal A)

abbrev suc_option : Option ℕ → Option ℕ
suc_option none = none
suc_option (some i) = some (suc i)

module _ {A : Type 0} where
  -- The changes to a model whose rows are `front` and `after`, with an object between them or not.
  abbrev pub inserted : ℕ → A → ObjectModel A → ObjectModel A
  inserted index object m = record {
    values_list = take index m.values_list ++ object ∷ drop index m.values_list;
    signals =
        m.signals
        ++ object_inserted_pre object index
          ∷ rows_change (rows_inserted index index (object ∷ []))
          ∷ values_changed
          ∷ object_inserted_post object index
          ∷ [];
  }

  abbrev pub removed : ℕ → A → ObjectModel A → ObjectModel A
  removed index object m = record {
    values_list = take index m.values_list ++ drop (suc index) m.values_list;
    signals =
        m.signals
        ++ object_removed_pre object index
          ∷ rows_change (rows_removed index index)
          ∷ values_changed
          ∷ object_removed_post object index
          ∷ [];
  }

  unfoldable pub insert_at : ℕ → A → ObjectModel A → Option (ObjectModel A)
  insert_at index object m =
      if leb index (length m.values_list) then some (inserted index object m) else none

  -- The index -1, which is `none` here, is the end of the list.
  unfoldable pub insert_object : A → Option ℕ → ObjectModel A → Option (ObjectModel A)
  insert_object object none m = insert_at (length m.values_list) object m
  insert_object object (some index) m = insert_at index object m

  abbrev pub removed_if : Option A → ℕ → ObjectModel A → Option (ObjectModel A)
  removed_if none index m = none
  removed_if (some object) index m = some (removed index object m)

  unfoldable pub remove_at : ℕ → ObjectModel A → Option (ObjectModel A)
  remove_at index m = removed_if (get_elem? m.values_list index) index m

  -- The loop of `insertObjectSorted`, as the distance that its iterator goes.
  unfoldable pub sorted_index : (A → A → Bool) → A → List A → ℕ
  sorted_index compare object [] = 0
  sorted_index compare object (x ∷ xs) =
      let rest = sorted_index compare object xs in if not (compare object x) then 0 else suc rest

  unfoldable pub insert_object_sorted : A → (A → A → Bool) → ObjectModel A → Option (ObjectModel A)
  insert_object_sorted object compare m =
      insert_object object (some (sorted_index compare object m.values_list)) m

  -- The index of the first object that passes a test; -1 is `none`.
  unfoldable pub index_if : (A → Bool) → List A → Option ℕ
  index_if test [] = none
  index_if test (x ∷ xs) = let rest = index_if test xs in if test x then some 0 else suc_option rest

  abbrev pub removed_at : Option ℕ → ObjectModel A → Option (ObjectModel A × Bool)
  removed_at none m = some (m, false)
  removed_at (some index) m = elim (remove_at index m) [ none ↦ none | some m' ↦ some (m', true) ]

  abbrev pub bind_model :
      Option (ObjectModel A) → (ObjectModel A → Option (ObjectModel A)) → Option (ObjectModel A)
  bind_model none f = none
  bind_model (some m) f = f m

  -- In `diffUpdate`, the row of an object that comes later in the list is dropped.
  unfoldable pub drop_old : Option ℕ → ℕ → ObjectModel A → Option (ObjectModel A)
  drop_old none oi m = some m
  drop_old (some old) oi m = remove_at (oi + old) m

-- `same` is the equality of two pointers.
module _ {A : Type 0} (same : A → A → Bool) where
  -- QList::indexOf and QList::contains
  abbrev pub index_of : A → List A → Option ℕ
  index_of object = index_if (same object)

  unfoldable pub contains : List A → A → Bool
  contains [] object = false
  contains (x ∷ xs) object = same x object || contains xs object

  unfoldable pub remove_object : A → ObjectModel A → Option (ObjectModel A × Bool)
  remove_object object m = removed_at (index_of object m.values_list) m

  -- The first loop of `diffUpdate`: a round at row `i`, and the rest of the loop.
  unfoldable pub keep_row :
      (ℕ → ObjectModel A → Option (ObjectModel A))
      → List A
      → Option A
      → ℕ
      → ObjectModel A
      → Option (ObjectModel A)
  keep_row rest new none i m = some m
  keep_row rest new (some x) i m =
      if contains new x then rest (suc i) m else bind_model (remove_at i m) (rest i)

  unfoldable pub keep_loop : List A → ℕ → ℕ → ObjectModel A → Option (ObjectModel A)
  keep_loop new zero i m = none
  keep_loop new (suc fuel) i m = keep_row (keep_loop new fuel) new (get_elem? m.values_list i) i m

  unfoldable pub is_at : A → Option A → Bool
  is_at object none = false
  is_at object (some x) = same object x

  -- A round of the second loop, where the test of the length and of the object at `oi` are one.
  unfoldable pub place : A → ℕ → ObjectModel A → Option (ObjectModel A)
  place object oi m =
      if is_at object (get_elem? m.values_list oi)
      then some m
      else bind_model (drop_old (index_of object (drop oi m.values_list)) oi m)
          (insert_object object (some oi))

  unfoldable pub place_loop : List A → ℕ → ObjectModel A → Option (ObjectModel A)
  place_loop [] oi m = some m
  place_loop (x ∷ xs) oi m = bind_model (place x oi m) (place_loop xs (oi + 1))

  -- Each round of the first loop goes a row on or takes one away, so this fuel is enough.
  unfoldable pub diff_update : List A → ObjectModel A → Option (ObjectModel A)
  diff_update new m = bind_model (keep_loop new (suc (length m.values_list)) 0 m) (place_loop new 0)

unfoldable pub row_count : {A : Type 0} → Bool → ObjectModel A → ℕ
row_count is_root m = if is_root then length m.values_list else 0
