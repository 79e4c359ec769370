-- ===== src/Log/Parts.antt =====
-- What the encoder writes for an integer, a string or a category, the decoder reads back.
use native.Mathlib.Nat.{mod-eq_of_lt}
use mcs_qs.Prelude.{
  ℕ, ◌^◌, ◌≤◌, ◌<◌, ◌≡◌, refl, arith, Bool, true, false, some, List, [], ◌∷◌, ◌++◌, length, ltb,
  Bool-cases, inl, inr, take-length_append, drop-length_append,
}
use mathlib.Core.List.{append_assoc}
use mcs_qs.Log.{Env, CategoryFilter}
use mcs_qs.Log.Bytes.{u8, u16, u32, u64, var_int, string, from_le}
use mcs_qs.Log.Writer.{filter_flags}
use mcs_qs.Log.Reader.{
  LogReader, Read, read_bytes, skip, read_u8, read_u64, var_int_of, read_var_int, read_string,
  read_category, add_category, filter_of_flags, ◌>>=◌,
}

abbrev filter_of : Bool → Bool → Bool → Bool → CategoryFilter
filter_of d i w c = record { debug = d; info = i; warn = w; critical = c }

-- The flags byte of a filter, over the sixteen filters.
flags_of :
    (d i w c : Bool)
    → (filter_of_flags (filter_flags (filter_of d i w c)) ≡ filter_of d i w c)
      × (filter_flags (filter_of d i w c) < 256)
unfolding filter_of_flags filter_flags
flags_of true true true true = (refl, omega arith)
flags_of true true true false = (refl, omega arith)
flags_of true true false true = (refl, omega arith)
flags_of true true false false = (refl, omega arith)
flags_of true false true true = (refl, omega arith)
flags_of true false true false = (refl, omega arith)
flags_of true false false true = (refl, omega arith)
flags_of true false false false = (refl, omega arith)
flags_of false true true true = (refl, omega arith)
flags_of false true true false = (refl, omega arith)
flags_of false true false true = (refl, omega arith)
flags_of false true false false = (refl, omega arith)
flags_of false false true true = (refl, omega arith)
flags_of false false true false = (refl, omega arith)
flags_of false false false true = (refl, omega arith)
flags_of false false false false = (refl, omega arith)

flags_lem : (f : CategoryFilter) → (filter_of_flags (filter_flags f) ≡ f) × (filter_flags f < 256)
flags_lem f = flags_of f.debug f.info f.warn f.critical

module _ (env : Env) where
  abbrev pub at_rest : LogReader env → List ℕ → LogReader env
  at_rest r bytes = record r { rest = bytes }

  -- `m` reads `bytes` as `a`, whatever follows them, and changes nothing else.
  abbrev pub Reads : {A : Type 0} → Read env A → List ℕ → A → Type 0
  Reads m bytes a =
      (r : LogReader env) (more : List ℕ) → m (at_rest r (bytes ++ more)) ≡ (some a, at_rest r more)

  read_bytes-Reads : (bytes : List ℕ) → Reads (read_bytes env (length bytes)) bytes bytes
  unfolding read_bytes
  read_bytes-Reads bytes r more =
      rw (take-length_append bytes more, drop-length_append bytes more) (ground arith)

  pub read_u8-Reads : (n : ℕ) → n < 256 → Reads (read_u8 env) (u8 n) n
  unfolding read_u8 read_bytes from_le
  read_u8-Reads n h r more = ground arith

  pub read_u64-Reads : (n : ℕ) → n < 2 ^ 64 → Reads (read_u64 env) (u64 n) n
  unfolding read_u64 read_bytes from_le
  read_u64-Reads n h r more = ground arith

  one_byte : (n : ℕ) → n < 0xff → Reads (read_var_int env) (u8 n) n
  unfolding read_var_int var_int_of skip from_le
  one_byte n h r more = ground arith

  three_bytes : (n : ℕ) → 0xff ≤ n → n < 0xffff → Reads (read_var_int env) (u8 0xff ++ u16 n) n
  unfolding read_var_int var_int_of skip from_le
  three_bytes n lo hi r more = ground arith

  seven_bytes : (n : ℕ) → n < 2 ^ 32 → Reads (read_var_int env) (u8 0xff ++ (u16 0xffff ++ u32 n)) n
  unfolding read_var_int var_int_of skip from_le
  seven_bytes n hi r more = ground arith

  -- A variable-length integer reads back, in each of its three forms.
  pub read_var_int-Reads : (n : ℕ) → n < 2 ^ 32 → Reads (read_var_int env) (var_int n) n
  unfolding var_int
  read_var_int-Reads n h r more = elim (Bool-cases (ltb n 0xff)) [
    | inl s ↦ rw s (one_byte n (ground arith) r more)
    | inr s ↦ rw s (elim (Bool-cases (ltb n 0xffff)) [
      | inl t ↦ rw t (three_bytes n (ground arith) (ground arith) r more)
      | inr t ↦ rw t (seven_bytes n h r more)
    ])
  ]

  -- From the state `r` the method `m` reads `bytes` as `a`, whatever follows them, and leaves `r'`.
  abbrev pub Steps : {A : Type 0} → Read env A → LogReader env → List ℕ → A → LogReader env → Type 0
  Steps m r bytes a r' = (more : List ℕ) → m (at_rest r (bytes ++ more)) ≡ (some a, at_rest r' more)

  pub Steps-bind :
      {A B : Type 0} (m : Read env A) (f : A → Read env B) (r r' r'' : LogReader env)
      (first second : List ℕ) (a : A) (b : B)
      → Steps m r first a r'
      → Steps (f a) r' second b r''
      → Steps (m >>= f) r (first ++ second) b r''
  Steps-bind m f r r' r'' first second a b h k more =
      rw (append_assoc first second more, h (second ++ more)) (k more)

  pub read_string-Reads :
      (bytes : List ℕ) → length bytes < 2 ^ 32 → Reads (read_string env) (string bytes) bytes
  unfolding read_string string
  read_string-Reads bytes h r = rw (mod-eq_of_lt h) (
      Steps-bind (read_var_int env) (read_bytes env) r r r (var_int (length bytes)) bytes
        (length bytes) bytes (read_var_int-Reads (length bytes) h r) (read_bytes-Reads bytes r))

  -- A registered category reads back with its filter, and becomes the last category.
  pub read_category-Steps :
      (r : LogReader env) (name : List ℕ) (f : CategoryFilter)
      → length name < 2 ^ 32
      → Steps
          (read_category env)
          r
          (string name ++ u8 (filter_flags f))
          tt
          (record r { categories = r.categories ++ (name, f) ∷ [] })
  unfolding read_category
  read_category-Steps r name f h =
      Steps-bind (read_string env)
        (λ n. read_u8 env >>= λ flags. add_category env (n, filter_of_flags flags)) r r
        (record r { categories = r.categories ++ (name, f) ∷ [] }) (string name)
        (u8 (filter_flags f)) name tt (read_string-Reads name h r)
        (λ more. rw (read_u8-Reads (filter_flags f) (flags_lem f).1 r more, (flags_lem f).0))
