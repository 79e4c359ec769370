-- ===== src/Examples/Rings.antt =====
-- A ring buffer of two places.
use mcs_qs.Prelude.{ℕ, ◌≡◌, ◌==◌, arith, true, [], ◌∷◌}
use mcs_qs.Ring.{Ring, empty_ring, emplace, emplace_hashed, index_of}
use mcs_qs.Ring.Refine.{Holds, empty_ring-Holds, emplace-Holds}
use mcs_qs.Ring.Search.{find_index, emplace_hashed-Holds, index_of_lem}

abbrev two : Ring ℕ
two = empty_ring 2

emplace_example : Holds (emplace 7 two) (7 ∷ [])
unfolding empty_ring
emplace_example = emplace-Holds 7 (empty_ring-Holds 2 (omega arith))

abbrev id_hash : ℕ → ℕ
id_hash n = n

same_id : (x y : ℕ) → (x == y) ≡ true → x ≡ y
same_id x y h = ground arith

index_of_example :
    index_of id_hash ◌==◌ 7 (emplace_hashed id_hash ◌==◌ 7 (empty_ring 2))
    ≡ find_index (◌==◌ 7) (7 ∷ []) 0
unfolding empty_ring
index_of_example =
    index_of_lem id_hash ◌==◌ same_id 7 (emplace_hashed id_hash ◌==◌ 7 (empty_ring 2)) (7 ∷ [])
      (emplace_hashed-Holds id_hash ◌==◌ 7 [] (empty_ring-Holds 2 (omega arith)))
