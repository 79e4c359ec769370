-- ===== src/Examples/Models.antt =====
-- An object model of numbers, and an object with references and locks.
use mcs_qs.ObjectModel.{ObjectModel, diff_update}
use mcs_qs.ObjectModel.Rows.{Gives}
use mcs_qs.ObjectModel.Update.{diff_update_lem}
use mcs_qs.Prelude.{ℕ, ◌≡◌, refl, arith, true, false, [], ◌∷◌, ◌==◌, ==_iff}
use mcs_qs.Retainable.{Object, retained_destroy}
use mcs_qs.Retainable.Locks.{enabled_first, object_first, locks_unbalanced}
use mcs_qs.Retainable.Releases.{
  release_all, unlocks, by_unref, by_unlock, retained_destroy-release_all,
}

abbrev numbers : ObjectModel ℕ
numbers = record { values_list = 1 ∷ 2 ∷ 3 ∷ 4 ∷ []; signals = [] }

-- 2 goes, 4 comes to the front, and 5 is new.
diff_example :
    Gives (diff_update (λ a b. a == b) (4 ∷ 1 ∷ 5 ∷ 3 ∷ []) numbers) numbers (4 ∷ 1 ∷ 5 ∷ 3 ∷ [])
diff_example =
    diff_update_lem (λ a b. a == b) ==_iff (4 ∷ 1 ∷ 5 ∷ 3 ∷ []) numbers
      ((refl, (refl, (refl, tt))), ((refl, (refl, tt)), ((refl, tt), (tt, tt))))

abbrev held : Object
held = record {
  has_hook = true;
  refcount = 2;
  explicit_refcount = 1;
  inactive = true;
  retaining = false;
  finished = 0;
}

release_example :
    ((release_all (by_unref ∷ by_unlock ∷ []) (retained_destroy held)).refcount ≡ 0)
    × ((release_all (by_unref ∷ by_unlock ∷ []) (retained_destroy held)).finished ≡ 1)
release_example =
    retained_destroy-release_all (by_unref ∷ by_unlock ∷ []) held refl (omega arith) (omega arith)
      (unfold unlocks in omega arith)

abbrev dropped : Object
dropped = record held { refcount = 1; inactive = false; retaining = true }

locks_example :
    ((enabled_first dropped).refcount ≡ 0)
    × ((enabled_first dropped).explicit_refcount ≡ 1)
    × ((enabled_first dropped).finished ≡ 1)
    × ((object_first dropped).refcount ≡ 2)
locks_example = locks_unbalanced dropped refl (omega arith) (omega arith)
