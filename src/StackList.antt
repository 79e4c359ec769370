-- ===== src/StackList.antt =====
-- `StackList` of core/stacklist.hpp: the first `n` elements are in an array, the others in a vector.
-- The array's unused places hold a default value. An index out of range, which the source leaves
-- undefined, is `none`.
pub mod Contents
use mcs_qs.Prelude.{
  ℕ, zero, suc, ◌+◌, ◌-◌, Bool, true, false, ◌&&◌, Option, none, some, List, [], ◌∷◌, ◌++◌, ltb,
  ◌==◌, if◌then◌else◌, get_elem?, set, take, replicate, min,
}

pub record StackList {ℓ} (A : Type ℓ) : Type ℓ where
  pub array : List A
  pub vec : List A
  pub size : ℕ

module _ {ℓ} {A : Type ℓ} (n : ℕ) where
  abbrev pub empty_list : A → StackList A
  empty_list default = record { array = replicate n default; vec = []; size = 0 }

  -- `operator[]`
  unfoldable pub element : StackList A → ℕ → Option A
  element l i = if ltb i n then get_elem? l.array i else get_elem? l.vec (i - n)

  unfoldable pub push : A → StackList A → StackList A
  push value l =
      if ltb l.size n
      then record l { array = set l.array l.size value; size = l.size + 1 }
      else record l { vec = l.vec ++ value ∷ []; size = l.size + 1 }

  -- The loop of `toList`, over the indices that its iterators go through.
  abbrev cons_element : Option A → List A → List A
  cons_element none rest = rest
  cons_element (some x) rest = x ∷ rest

  unfoldable pub list_loop : ℕ → ℕ → StackList A → List A
  list_loop zero i l = []
  list_loop (suc rounds) i l = cons_element (element l i) (list_loop rounds (i + 1) l)

  unfoldable pub to_list : StackList A → List A
  to_list l = list_loop l.size 0 l

  -- The elements in the order in which `populateAlloc` copies them.
  unfoldable pub populate_alloc : StackList A → List A
  populate_alloc l = take (min l.size n) l.array ++ l.vec

  -- The loop of `operator==`, for lists of one size.
  abbrev same_elements : (A → A → Bool) → Option A → Option A → Bool
  same_elements same (some x) (some y) = same x y
  same_elements same _ _ = false

  unfoldable pub same_loop : (A → A → Bool) → ℕ → ℕ → StackList A → StackList A → Bool
  same_loop same zero i a b = true
  same_loop same (suc rounds) i a b =
      let rest = same_loop same rounds (i + 1) a b in
      same_elements same (element a i) (element b i) && rest

  unfoldable pub same_list : (A → A → Bool) → StackList A → StackList A → Bool
  same_list same a b = a.size == b.size && same_loop same a.size 0 a b
