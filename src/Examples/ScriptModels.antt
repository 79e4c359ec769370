-- ===== src/Examples/ScriptModels.antt =====
-- A script model of two-digit numbers, whose key is the first digit.
use mcs_qs.Prelude.{ℕ, ◌/◌, ◌≡◌, refl, false, some, List, [], ◌∷◌, ◌==◌}
use mcs_qs.ScriptModel.{
  ValueApi, ScriptModel, rows_moved, update_values_unique, get_cmp_key, variant_cmp,
}
use mcs_qs.ScriptModel.Results.{updated, update_values_unique-own, update_values_unique-stale}

abbrev digits : ValueApi
digits = record { Value = ℕ; equal = λ a b. a == b; value_of_key = λ key v. some (v / 10) }

abbrev model : List ℕ → ScriptModel digits
model key = record {
  values = 10 ∷ 20 ∷ [];
  cmp_key = key;
  has_active_iterators = false;
  changes = [];
  values_changed = 0;
  object_prop_changed = 0;
}

own_example :
    update_values_unique digits (10 ∷ 20 ∷ []) (model (1 ∷ []))
    ≡ some (updated digits (10 ∷ 20 ∷ []) [] (model (1 ∷ [])))
unfolding variant_cmp get_cmp_key
own_example = update_values_unique-own digits (model (1 ∷ [])) (refl, (refl, (refl, (refl, tt))))

stale_example :
    update_values_unique digits (25 ∷ 10 ∷ []) (model (1 ∷ []))
    ≡ some (updated digits (20 ∷ 10 ∷ []) (rows_moved 1 1 0 ∷ []) (model (1 ∷ [])))
unfolding variant_cmp get_cmp_key
stale_example =
    update_values_unique-stale digits 10 20 25 (model (1 ∷ [])) refl refl refl refl refl refl
