-- ===== src/Examples/StackLists.antt =====
-- A stack list with room for one element in its array.
use mcs_qs.Prelude.{ℕ, ◌≡◌, refl, [], ◌∷◌, ◌++◌}
use mcs_qs.StackList.{StackList, push, to_list, populate_alloc}
use mcs_qs.StackList.Contents.{IsValid, push_lem}

abbrev one : StackList ℕ
one = record { array = 5 ∷ []; vec = []; size = 1 }

push_example :
    IsValid 1 (push 1 7 one)
    × ((to_list 1 (push 1 7 one) ≡ to_list 1 one ++ 7 ∷ [])
        × (populate_alloc 1 (push 1 7 one) ≡ to_list 1 one ++ 7 ∷ []))
push_example = push_lem 1 7 one (record { places = refl; overflow = refl })
