-- ===== src/ScriptModel.antt =====
-- `ScriptModel` of core/scriptmodel.cpp: a list model that is brought to new values by removals,
-- insertions, moves and replacements, each announced to the views. The iterators of the source split
-- the values, and the new values, into what is behind them and what is ahead.
pub mod Runs
pub mod Moves
pub mod Views
pub mod Steps
pub mod Update
pub mod Results
use mcs_qs.Log.{same_bytes}
use mcs_qs.Prelude.{
  ℕ, zero, suc, ◌+◌, ◌-◌, ◌≡◌, Bool, true, false, ◌&&◌, not, Option, none, some, List, [], ◌∷◌,
  ◌++◌, length, take, drop, ltb, leb, ◌==◌, if◌then◌else◌,
}

-- What the model takes from QVariant: `==`, and the value that a variant has for a key if it converts
-- to a map that contains the key. No law of `==` is taken: the values may be of any mixture of types.
pub record ValueApi : Type 1 where
  pub Value : Type 0
  pub equal : Value → Value → Bool
  pub value_of_key : List ℕ → Value → Option Value

-- What the model announces, first and last row included. An insertion and a change carry the rows that a
-- view reads then.
pub data Change (V : Type 0) : Type 0 where
  rows_removed : (first last : ℕ) → Change V
  rows_inserted : (first last : ℕ) → List V → Change V
  rows_moved : (first last destination : ℕ) → Change V
  data_changed : (first last : ℕ) → List V → Change V

module _ {ℓ} {A : Type ℓ} where
  -- std::find_if, as the distance from the first iterator; the list's length stands for the end.
  unfoldable pub find_if : (A → Bool) → List A → ℕ
  find_if p [] = 0
  find_if p (x ∷ xs) = let rest = find_if p xs in if p x then 0 else suc rest

  abbrev pub is_absent : (A → Bool) → List A → Bool
  is_absent p xs = find_if p xs == length xs

  -- How far an iterator goes while a test passes.
  unfoldable pub run_while : (A → Bool) → List A → ℕ
  run_while p [] = 0
  run_while p (x ∷ xs) = let rest = run_while p xs in if p x then suc rest else 0

  -- How far two iterators go together while a test passes.
  unfoldable pub run_both : (A → A → Bool) → List A → List A → ℕ
  run_both p [] ys = 0
  run_both p (x ∷ xs) [] = 0
  run_both p (x ∷ xs) (y ∷ ys) = let rest = run_both p xs ys in if p x y then suc rest else 0

  -- QList::move, for a row that moves to the front: it is taken out and put in.
  unfoldable pub insert_row : ℕ → Option A → List A → List A
  insert_row to none xs = xs
  insert_row to (some x) xs = take to xs ++ x ∷ drop to xs

  abbrev pub head_of : List A → Option A
  head_of [] = none
  head_of (x ∷ xs) = some x

  unfoldable pub move_row : ℕ → ℕ → List A → List A
  move_row from to xs = insert_row to (head_of (drop from xs)) (take from xs ++ drop (suc from) xs)

  -- The loop that moves `len` rows.
  unfoldable pub move_rows : ℕ → ℕ → ℕ → List A → List A
  move_rows zero from to xs = xs
  move_rows (suc len) from to xs = move_rows len (suc from) (suc to) (move_row from to xs)

module _ (api : ValueApi) where
  open api use {Value, equal}

  pub record ScriptModel : Type 0 where
    pub values : List Value
    pub cmp_key : List ℕ
    pub has_active_iterators : Bool
    pub changes : List (Change Value)
    pub values_changed : ℕ
    pub object_prop_changed : ℕ

  -- What is ahead of and behind the iterators: `done` and `old` are the values, `new` what is left of
  -- the new values.
  pub record Cursor : Type 0 where
    pub done : List Value
    pub old : List Value
    pub new : List Value

module _ (api : ValueApi) where
  open api use {Value, equal}

  abbrev or_whole : Option Value → Value → Value
  or_whole none v = v
  or_whole (some k) v = k

  unfoldable pub get_cmp_key : List ℕ → Value → Value
  get_cmp_key cmp_key v = or_whole (api.value_of_key cmp_key v) v

  abbrev pub is_empty : List ℕ → Bool
  is_empty [] = true
  is_empty (x ∷ xs) = false

  unfoldable pub variant_cmp : List ℕ → Value → Value → Bool
  variant_cmp cmp_key a b =
      if not (is_empty cmp_key)
      then equal (get_cmp_key cmp_key a) (get_cmp_key cmp_key b)
      else equal a b

  -- The removal of rows that the new values do not have.
  abbrev pub remove_rows : ℕ → Cursor api → Cursor api × Change Value
  remove_rows len c =
      (record c { old = drop len c.old }, rows_removed (length c.done) (length c.done + len - 1))

  -- The move of `len` rows, `from` rows ahead.
  abbrev pub move_to_front : ℕ → ℕ → Cursor api → Cursor api × Change Value
  move_to_front from len c =
      let d = length c.done in
      let values = move_rows len (d + from) d (c.done ++ c.old) in
      (
        record { done = take (d + len) values; old = drop (d + len) values; new = drop len c.new },
        rows_moved (d + from) (d + from + len - 1) d,
      )

  abbrev pub insert_new : ℕ → Cursor api → Cursor api × Change Value
  insert_new len c = (
    record c { done = c.done ++ take len c.new; new = drop len c.new },
    rows_inserted (length c.done) (length c.done + len - 1) (take len c.new),
  )

  abbrev pub replace_rows : ℕ → Cursor api → Cursor api × Change Value
  replace_rows len c = (
    record { done = c.done ++ take len c.new; old = drop len c.old; new = drop len c.new },
    data_changed (length c.done) (length c.done + len - 1) (take len c.new),
  )

  module _ (cmp : Value → Value → Bool) (all : List Value) where
    -- The branch for two values `x` and `y` that do not match.
    unfoldable pub mismatch :
        Value → List Value → Value → List Value → Cursor api → Cursor api × Change Value
    mismatch x xs y ys c =
        if not (is_absent (λ a. cmp a y) (x ∷ xs))
        then if is_absent (λ b. cmp b x) (y ∷ ys)
          then remove_rows (suc (run_while (λ a. is_absent (λ b. cmp b a) (y ∷ ys)) xs)) c
          else move_to_front (find_if (λ a. cmp a y) (x ∷ xs))
              (suc (run_both cmp (drop (suc (find_if (λ a. cmp a y) (x ∷ xs))) (x ∷ xs)) ys)) c
        else insert_new (suc (run_while (λ b. is_absent (λ a. cmp a b) (x ∷ xs)) ys)) c

    abbrev change : Cursor api × Change Value → Cursor api × List (Change Value)
    change (c, s) = (c, s ∷ [])

    -- A round of the loop that does not end it.
    unfoldable pub round :
        Value → List Value → Value → List Value → Cursor api → Cursor api × List (Change Value)
    round x xs y ys c =
        if not (cmp y x)
        then change (mismatch x xs y ys c)
        else if not (equal y x)
        then change (replace_rows (suc (run_both (λ a b. not (equal b a)) xs ys)) c)
        else (record { done = c.done ++ x ∷ []; old = xs; new = ys }, [])

    abbrev pub with_changes :
        List (Change Value)
        → Option (List Value × List (Change Value))
        → Option (List Value × List (Change Value))
    with_changes cs none = none
    with_changes cs (some (values, more)) = some (values, cs ++ more)

    -- The branches of the loop's body, and the rest of the loop.
    unfoldable pub branch :
        (Cursor api → Option (List Value × List (Change Value)))
        → List Value
        → List Value
        → Cursor api
        → Option (List Value × List (Change Value))
    branch rest [] [] c = some (c.done, [])
    branch rest (x ∷ xs) [] c =
        some (c.done, rows_removed (length all) (length c.done + suc (length xs) - 1) ∷ [])
    branch rest [] (y ∷ ys) c =
        let items = drop (length c.done) all in
        some (c.done ++ items, rows_inserted (length c.done) (length all - 1) items ∷ [])
    branch rest (x ∷ xs) (y ∷ ys) c =
        let (next, cs) = round x xs y ys c in with_changes cs (rest next)

    -- The loop, on fuel: the values at its end and what it announced, or `none` without fuel.
    unfoldable pub update_loop : ℕ → Cursor api → Option (List Value × List (Change Value))
    update_loop zero c = none
    update_loop (suc fuel) c = branch (update_loop fuel) c.old c.new c

  -- Each round takes a value off one of the two lists ahead, so this fuel is enough.
  unfoldable pub update_values_unique : List Value → ScriptModel api → Option (ScriptModel api)
  update_values_unique new_values m =
      elim (update_loop (variant_cmp m.cmp_key) new_values
        (suc (length m.values + length new_values))
        (record { done = []; old = m.values; new = new_values })) [
          | none ↦ none
          | some (values, cs) ↦ some (record m {
            values = values;
            changes = m.changes ++ cs;
            has_active_iterators = false;
          })
        ]

  unfoldable pub same_values : List Value → List Value → Bool
  same_values [] [] = true
  same_values [] (y ∷ ys) = false
  same_values (x ∷ xs) [] = false
  same_values (x ∷ xs) (y ∷ ys) = let rest = same_values xs ys in equal x y && rest

  abbrev announce_values : Option (ScriptModel api) → Option (ScriptModel api)
  announce_values none = none
  announce_values (some m) = some (record m { values_changed = m.values_changed + 1 })

  abbrev announce_prop : Option (ScriptModel api) → Option (ScriptModel api)
  announce_prop none = none
  announce_prop (some m) = some (record m { object_prop_changed = m.object_prop_changed + 1 })

  unfoldable pub set_values : List Value → ScriptModel api → Option (ScriptModel api)
  set_values new_values m =
      if same_values new_values m.values
      then some m
      else announce_values (update_values_unique new_values m)

  -- The new values are the model's own, which change under the loop only if it announces something.
  unfoldable pub set_object_prop : List ℕ → ScriptModel api → Option (ScriptModel api)
  set_object_prop object_prop m =
      if same_bytes object_prop m.cmp_key
      then some m
      else announce_prop (update_values_unique m.values (record m { cmp_key = object_prop }))

  unfoldable pub row_count : Bool → ScriptModel api → ℕ
  row_count is_root m = if is_root then length m.values else 0
