-- ===== src/StackList/Contents.antt =====
-- A stack list is the list of what was pushed.
use mathlib.Core.List.{append_assoc, append-nil}
use mcs_qs.Prelude.{
  ℕ, zero, suc, ◌+◌, ◌-◌, ◌<◌, ◌≤◌, ◌≡◌, refl, arith, some, List, [], ◌∷◌, ◌++◌, length, take, set,
  get_elem?, ltb, Bool-cases, inl, inr, min, ap, sym, ◌∙◌, length-set, length-append, length-take,
  get_elem?-take,
}
use mcs_qs.StackList.{StackList, element, push, list_loop, to_list, populate_alloc}

take-set {ℓ} :
    {A : Type ℓ} (xs : List A) (i : ℕ) (v : A)
    → i < length xs
    → take (suc i) (set xs i v) ≡ take i xs ++ v ∷ []
take-set [] i v h = absurd (omega arith)
take-set (x ∷ xs) zero v h = refl
take-set (x ∷ xs) (suc i) v h = ap (λ t. x ∷ t) (take-set xs i v (omega arith))

get_elem?-left {ℓ} :
    {A : Type ℓ} (xs ys : List A) (i : ℕ) → i < length xs → get_elem? (xs ++ ys) i ≡ get_elem? xs i
get_elem?-left [] ys i h = absurd (omega arith)
get_elem?-left (x ∷ xs) ys zero h = refl
get_elem?-left (x ∷ xs) ys (suc i) h = get_elem?-left xs ys i (omega arith)

get_elem?-right {ℓ} :
    {A : Type ℓ} (xs ys : List A) (i : ℕ) → get_elem? (xs ++ ys) (length xs + i) ≡ get_elem? ys i
get_elem?-right [] ys i = let e : 0 + i ≡ i = omega arith in ap (get_elem? ys) e
get_elem?-right (x ∷ xs) ys i =
    let e : suc (length xs) + i ≡ suc (length xs + i) = omega arith in
    ap (get_elem? (x ∷ (xs ++ ys))) e ∙ get_elem?-right xs ys i

nil_of_length {ℓ} : {A : Type ℓ} (xs : List A) → length xs ≡ 0 → xs ≡ []
nil_of_length [] h = refl
nil_of_length (x ∷ xs) h = absurd (omega arith)

module _ {ℓ} {A : Type ℓ} (n : ℕ) where
  -- The array has its `n` places, and the vector holds what does not fit there.
  pub record IsValid (l : StackList A) : Type ℓ where
    pub places : length l.array ≡ n
    pub overflow : length l.vec ≡ l.size - n

  length-populate_alloc : (l : StackList A) → IsValid l → length (populate_alloc n l) ≡ l.size
  unfolding populate_alloc
  length-populate_alloc l v = omega (
    arith,
    length-append (take (min l.size n) l.array) l.vec,
    length-take (min l.size n) l.array,
    v.places,
    v.overflow,
  )

  element_lem :
      (l : StackList A) (i : ℕ)
      → IsValid l
      → i < l.size
      → element n l i ≡ get_elem? (populate_alloc n l) i
  unfolding element populate_alloc
  element_lem l i v h = elim (Bool-cases (ltb i n)) [
    | inl t ↦
        let lt : i < n = ground arith in
        let inside : i < length (take (min l.size n) l.array) =
          omega (arith, length-take (min l.size n) l.array, v.places) in
        rw (t, get_elem?-left (take (min l.size n) l.array) l.vec i inside)
          (sym (get_elem?-take (min l.size n) i l.array (omega arith)))
    | inr f ↦
        let ge : n ≤ i = ground arith in
        let e : length (take (min l.size n) l.array) + (i - n) ≡ i =
          omega (arith, length-take (min l.size n) l.array, v.places) in
        rw f (
          sym (get_elem?-right (take (min l.size n) l.array) l.vec (i - n))
          ∙ ap (get_elem? (take (min l.size n) l.array ++ l.vec)) e)
  ]

  list_loop_lem :
      (l : StackList A) (ys : List A) (i : ℕ)
      → ((j : ℕ) → j < length ys → element n l (i + j) ≡ get_elem? ys j)
      → list_loop n (length ys) i l ≡ ys
  unfolding list_loop
  list_loop_lem l [] i h = refl
  list_loop_lem l (y ∷ ys) i h =
      let e : i ≡ i + 0 = omega arith in
      let here : element n l i ≡ some y = ap (element n l) e ∙ h 0 (omega arith) in
      let next = list_loop_lem l ys (i + 1) λ j lt.
        let f : i + 1 + j ≡ i + suc j = omega arith in
        ap (element n l) f ∙ h (suc j) (omega arith) in
      rw here (ap (λ t. y ∷ t) next)

  to_list_lem : (l : StackList A) → IsValid l → to_list n l ≡ populate_alloc n l
  unfolding to_list
  to_list_lem l v =
      ap (λ k. list_loop n k 0 l) (sym (length-populate_alloc l v))
      ∙ list_loop_lem l (populate_alloc n l) 0 λ j lt.
        let e : 0 + j ≡ j = omega arith in
        ap (element n l) e ∙ element_lem l j v (omega (arith, length-populate_alloc l v))

  push-IsValid : (x : A) (l : StackList A) → IsValid l → IsValid (push n x l)
  unfolding push
  push-IsValid x l v = elim (Bool-cases (ltb l.size n)) [
    | inl t ↦ rw t (record {
      places = length-set l.array l.size x ∙ v.places;
      overflow = ground (arith, v.overflow);
    })
    | inr f ↦ rw f (record {
      places = v.places;
      overflow = ground (arith, v.overflow, length-append l.vec (x ∷ []));
    })
  ]

  in_array :
      (x : A) (l : StackList A)
      → min (l.size + 1) n ≡ suc l.size
      → min l.size n ≡ l.size
      → l.vec ≡ []
      → l.size < length l.array
      → take (min (l.size + 1) n) (set l.array l.size x) ++ l.vec
        ≡ (take (min l.size n) l.array ++ l.vec) ++ x ∷ []
  in_array x l e f nil lt =
      rw
        (
          e,
          f,
          nil,
          append-nil (take (suc l.size) (set l.array l.size x)),
          append-nil (take l.size l.array),
        )
        (take-set l.array l.size x lt)

  populate_alloc-push :
      (x : A) (l : StackList A)
      → IsValid l
      → populate_alloc n (push n x l) ≡ populate_alloc n l ++ x ∷ []
  unfolding populate_alloc push
  populate_alloc-push x l v = elim (Bool-cases (ltb l.size n)) [
    | inl t ↦
        let lt : l.size < n = ground arith in
        let e : min (l.size + 1) n ≡ suc l.size = omega arith in
        let f : min l.size n ≡ l.size = omega arith in
        let nil = nil_of_length l.vec (omega (arith, v.overflow)) in
        rw t (in_array x l e f nil (omega (arith, v.places)))
    | inr t ↦
        let ge : n ≤ l.size = ground arith in
        let e : min (l.size + 1) n ≡ n = omega arith in
        let f : min l.size n ≡ n = omega arith in
        rw (t, e, f) (sym (append_assoc (take n l.array) l.vec (x ∷ [])))
  ]

  -- Pushing keeps a stack list valid and adds its element at the end, both of what `toList` makes and of
  -- what `populateAlloc` copies, whether the element goes to the array or to the vector.
  pub push_lem :
      (x : A) (l : StackList A)
      → IsValid l
      → IsValid (push n x l)
        × ((to_list n (push n x l) ≡ to_list n l ++ x ∷ [])
            × (populate_alloc n (push n x l) ≡ to_list n l ++ x ∷ []))
  push_lem x l v = (
    push-IsValid x l v,
    rw (to_list_lem l v, to_list_lem (push n x l) (push-IsValid x l v))
        (populate_alloc-push x l v, populate_alloc-push x l v),
  )
