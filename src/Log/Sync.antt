-- ===== src/Log/Sync.antt =====
-- What an encoder and a decoder of the same log have in common: the recent messages and the categories.
use native.Mathlib.Nat.{mod-eq_of_lt}
use mcs_qs.Prelude.{
  ℕ, zero, suc, ◌+◌, ◌<◌, ◌≡◌, refl, arith, Bool, true, some, List, [], ◌∷◌, ◌++◌, map, length,
  take, get_elem?, Bool-cases, inl, inr, sym, ◌∙◌, subst, map-take, length-map, length-append, ◌%◌,
  ◌^◌,
}
use mcs_qs.Ring.{Ring, at, emplace, emplace_hashed, index_of}
use mcs_qs.Ring.Refine.{Holds, emplace-Holds}
use mcs_qs.Ring.Search.{find_index, hashed, emplace_hashed-Holds, index_of_lem}
use mcs_qs.Log.{
  Env, LogMessage, CategoryFilter, MsgType, debug_msg, info_msg, warning_msg, critical_msg,
  fatal_msg, same_type, same_bytes, same_message, q_hash, recent_capacity, begin_categories,
}
use mcs_qs.Rules.Find.{same_bytes_sound}
use mcs_qs.Log.Writer.{find_category}

find_index_sound {ℓ} :
    {A : Type ℓ} (p : A → Bool) (xs : List A) (k i : ℕ)
    → find_index p xs k ≡ some i
    → (j : ℕ) × ((y : A) × ((i ≡ k + j) × ((get_elem? xs j ≡ some y) × (p y ≡ true))))
find_index_sound p [] k i h = absurd (ground arith)
find_index_sound p (x ∷ xs) k i h = elim (Bool-cases (p x)) [
  | inl t ↦ (0, (x, (ground arith, (refl, t))))
  | inr f ↦
      let h' : find_index p xs (k + 1) ≡ some i = ground arith in
      let (j, (y, (e, (g, t)))) = find_index_sound p xs (k + 1) i h' in
      (suc j, (y, (omega arith, (g, t))))
]

get_elem?-map_same {ℓ} :
    {A B K : Type ℓ} (f : A → K) (g : B → K) (ws : List A) (xs : List B) (i : ℕ) (y : A)
    → map f ws ≡ map g xs
    → get_elem? ws i ≡ some y
    → (z : B) × ((get_elem? xs i ≡ some z) × (g z ≡ f y))
get_elem?-map_same f g [] xs i y e h = absurd (ground arith)
get_elem?-map_same f g (w ∷ ws) [] i y e h = absurd (ground arith)
get_elem?-map_same f g (w ∷ ws) (x ∷ xs) zero y e h = (x, (refl, ground arith))
get_elem?-map_same f g (w ∷ ws) (x ∷ xs) (suc i) y e h =
    get_elem?-map_same f g ws xs i y (ground arith) h

-- What the two keep of a message: all but its time and its number of a category.
abbrev pub Key : Type 0
Key = MsgType × (List ℕ × List ℕ)

abbrev pub key : {T : Type 0} → LogMessage T → Key
key m = (m.type, (m.category, m.body))

same_type_sound : (a b : MsgType) → same_type a b ≡ true → a ≡ b
unfolding same_type
same_type_sound debug_msg debug_msg h = refl
same_type_sound info_msg info_msg h = refl
same_type_sound warning_msg warning_msg h = refl
same_type_sound critical_msg critical_msg h = refl
same_type_sound fatal_msg fatal_msg h = refl
same_type_sound _ _ h = absurd (ground arith)

same_message_sound : {T : Type 0} (a b : LogMessage T) → same_message a b ≡ true → key a ≡ key b
unfolding same_message
same_message_sound a b h = ground (
  arith,
  same_type_sound a.type b.type,
  same_bytes_sound a.category b.category,
  same_bytes_sound a.body b.body,
)

pub get_elem?-lt {ℓ} :
    {A : Type ℓ} (xs : List A) (i : ℕ) (y : A) → get_elem? xs i ≡ some y → i < length xs
get_elem?-lt [] i y h = absurd (ground arith)
get_elem?-lt (x ∷ xs) zero y h = omega arith
get_elem?-lt (x ∷ xs) (suc i) y h = omega (arith, get_elem?-lt xs i y h)

get_elem?-append {ℓ} :
    {A : Type ℓ} (xs ys : List A) (i : ℕ) (y : A)
    → get_elem? xs i ≡ some y
    → get_elem? (xs ++ ys) i ≡ some y
get_elem?-append [] ys i y h = absurd (ground arith)
get_elem?-append (x ∷ xs) ys zero y h = h
get_elem?-append (x ∷ xs) ys (suc i) y h = get_elem?-append xs ys i y h

get_elem?-map {ℓ} :
    {A B : Type ℓ} (f : A → B) (xs : List A) (i : ℕ) (y : A)
    → get_elem? xs i ≡ some y
    → get_elem? (map f xs) i ≡ some (f y)
get_elem?-map f [] i y h = absurd (ground arith)
get_elem?-map f (x ∷ xs) zero y h = ground arith
get_elem?-map f (x ∷ xs) (suc i) y h = get_elem?-map f xs i y h

pub get_elem?-last {ℓ} :
    {A : Type ℓ} (xs : List A) (y : A) → get_elem? (xs ++ y ∷ []) (length xs) ≡ some y
get_elem?-last [] y = refl
get_elem?-last (x ∷ xs) y = get_elem?-last xs y

module _ (env : Env) where
  open env use {Time}

  same_hash : (x y : LogMessage Time) → same_message x y ≡ true → q_hash env x ≡ q_hash env y
  unfolding q_hash
  same_hash x y h = ground (arith, same_message_sound x y h)

  -- The two rings hold the same messages, but for what `Key` leaves out.
  pub record RecentSync (a : Ring (ℕ × LogMessage Time)) (b : Ring (LogMessage Time)) : Type 0 where
    pub ws : List (LogMessage Time)
    pub xs : List (LogMessage Time)
    pub w_holds : Holds a (map (hashed (q_hash env) same_message) ws)
    pub r_holds : Holds b xs
    pub keys : map key ws ≡ map key xs
    pub w_capacity : a.capacity ≡ recent_capacity
    pub r_capacity : b.capacity ≡ recent_capacity

  pub RecentSync-emplace :
      (m x : LogMessage Time) {a : Ring (ℕ × LogMessage Time)} {b : Ring (LogMessage Time)}
      → key m ≡ key x
      → RecentSync a b
      → RecentSync (emplace_hashed (q_hash env) same_message m a) (emplace x b)
  unfolding emplace_hashed emplace
  RecentSync-emplace m x {a} {b} e s = record {
    ws = take a.capacity (m ∷ s.ws);
    xs = take b.capacity (x ∷ s.xs);
    w_holds = emplace_hashed-Holds (q_hash env) same_message m s.ws s.w_holds;
    r_holds = emplace-Holds x s.r_holds;
    keys =
        map-take key a.capacity (m ∷ s.ws)
        ∙ rw (s.w_capacity, s.r_capacity, s.keys, e)
            (sym (map-take key recent_capacity (x ∷ s.xs)));
    w_capacity = s.w_capacity;
    r_capacity = s.r_capacity;
  }

  -- What the encoder finds, the decoder has.
  pub RecentSync-found :
      (m : LogMessage Time) (a : Ring (ℕ × LogMessage Time)) (b : Ring (LogMessage Time)) (i : ℕ)
      → RecentSync a b
      → index_of (q_hash env) same_message m a ≡ some i
      → (y : LogMessage Time) × ((z : LogMessage Time) × ((at a i ≡ some (q_hash env y, y))
            × ((key m ≡ key y)
                × ((at b i ≡ some z)
                    × ((key z ≡ key y) × ((i < b.size) × (i < recent_capacity)))))))
  RecentSync-found m a b i s e =
      let (j, (y, (ij, (gy, same)))) =
        find_index_sound (same_message m) s.ws 0 i
          (sym (index_of_lem (q_hash env) same_message same_hash m a s.ws s.w_holds) ∙ e) in
      let gi : get_elem? s.ws i ≡ some y =
        subst (λ k. get_elem? s.ws k ≡ some y) (omega arith) gy in
      let (z, (gz, kz)) = get_elem?-map_same key key s.ws s.xs i y s.keys gi in
      let lw : i < length s.ws = get_elem?-lt s.ws i y gi in
      let lx : i < length s.xs = get_elem?-lt s.xs i z gz in
      let aw : i < a.size =
        omega (arith, s.w_holds.counted, length-map (hashed (q_hash env) same_message) s.ws) in
      let bx : i < b.size = omega (arith, s.r_holds.counted) in
      let here =
        s.w_holds.items i aw ∙ get_elem?-map (hashed (q_hash env) same_message) s.ws i y gi in
      let there = s.r_holds.items i bx ∙ gz in
      let small : i < recent_capacity = omega (arith, s.r_holds.bounded, s.r_capacity) in
      (y, (z, (here, (same_message_sound m y same, (there, (kz, (bx, small)))))))

  -- The decoder knows each category of the encoder by its number, less the opcodes.
  pub record Mirrors (cs : List (List ℕ × ℕ)) (next : ℕ) (known : List (List ℕ × CategoryFilter))
      : Type 0 where
    pub counted : next ≡ length known + begin_categories
    pub listed :
        (name : List ℕ) (id : ℕ)
        → find_category name cs ≡ some id
        → (i : ℕ) × ((id ≡ i + begin_categories)
            × (get_elem? known i ≡ some (name, env.get_filter name)))

  pub Mirrors-register :
      (name : List ℕ) (cs : List (List ℕ × ℕ)) (next : ℕ) (known : List (List ℕ × CategoryFilter))
      → next + 1 < 2 ^ 16
      → Mirrors cs next known
      → Mirrors
          ((name, next) ∷ cs)
          ((next + 1) % 2 ^ 16)
          (known ++ (name, env.get_filter name) ∷ [])
  unfolding find_category
  Mirrors-register name cs next known fits v = record {
    counted =
        rw (mod-eq_of_lt fits)
          (omega (arith, v.counted, length-append known ((name, env.get_filter name) ∷ [])));
    listed = λ other id h. elim (Bool-cases (same_bytes other name)) [
      | inl t ↦ (
        length known,
        (
          ground (arith, v.counted),
          rw (same_bytes_sound other name t) (get_elem?-last known (name, env.get_filter name)),
        ),
      )
      | inr f ↦
          let h' : find_category other cs ≡ some id = ground arith in
          let (i, (e, g)) = v.listed other id h' in
          (i, (e, get_elem?-append known ((name, env.get_filter name) ∷ []) i _ g))
    ];
  }
