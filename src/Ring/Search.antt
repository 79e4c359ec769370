-- ===== src/Ring/Search.antt =====
-- Looking up a value in a hash buffer.
use mcs_qs.Prelude.{
  ℕ, suc, ◌+◌, ◌<◌, ◌≡◌, refl, arith, Bool, true, Option, none, some, List, [], ◌∷◌, map, length,
  get_elem?, take, if◌then◌else◌, subst, ◌∙◌,
}
use mcs_qs.Prelude.{map-take, length-map}
use mcs_qs.Ring.{Ring, at, emplace_hashed, index_loop, index_of}
use mcs_qs.Ring.Refine.{Holds, emplace-Holds}

module _ {ℓ} {A : Type ℓ} where
  -- The first position of a list at which a test passes.
  abbrev pub find_index : (A → Bool) → List A → ℕ → Option ℕ
  find_index p [] i = none
  find_index p (x ∷ xs) i = let rest = find_index p xs (i + 1) in if p x then some i else rest

module _ {ℓ} {A : Type ℓ} (hash : A → ℕ) (same : A → A → Bool) where
  abbrev pub hashed : A → ℕ × A
  hashed x = (hash x, x)

  pub emplace_hashed-Holds :
      (x : A) {r : Ring (ℕ × A)} (xs : List A)
      → Holds r (map hashed xs)
      → Holds (emplace_hashed hash same x r) (map hashed (take r.capacity (x ∷ xs)))
  unfolding emplace_hashed
  emplace_hashed-Holds x {r} xs v = rw map-take (emplace-Holds (hashed x) v)

  module _ (same_hash : (x y : A) → same x y ≡ true → hash x ≡ hash y) where
    index_loop_lem :
        (value : A) (r : Ring (ℕ × A)) (i : ℕ) (ys : List A)
        → ((j : ℕ) → j < length ys → at r (i + j) ≡ get_elem? (map hashed ys) j)
        → index_loop hash same (length ys) i value r ≡ find_index (same value) ys i
    unfolding index_loop
    index_loop_lem value r i [] h = refl
    index_loop_lem value r i (y ∷ ys) h =
        let rest = index_loop_lem value r (i + 1) ys λ j lt.
          subst (λ k. at r k ≡ get_elem? (map hashed ys) j) (omega arith)
            (h (suc j) (omega arith)) in
        rw here (ground (arith, rest, same_hash value y))
      where
        here : at r i ≡ some (hashed y)
        here = subst (λ k. at r k ≡ some (hashed y)) (omega arith) (h 0 (omega arith))

    -- `indexOf` finds the newest element that is equal to the value, hash or no hash.
    pub index_of_lem :
        (value : A) (r : Ring (ℕ × A)) (xs : List A)
        → Holds r (map hashed xs)
        → index_of hash same value r ≡ find_index (same value) xs 0
    unfolding index_of
    index_of_lem value r xs v = simp size (
        index_loop_lem value r 0 xs λ j lt.
          subst (λ k. at r k ≡ get_elem? (map hashed xs) j) (omega arith)
            (v.items j (omega (arith, size))))
      where
        size : r.size ≡ length xs
        size = v.counted ∙ length-map hashed xs
