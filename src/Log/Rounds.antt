-- ===== src/Log/Rounds.antt =====
-- Each message that the decoder reads takes a byte at least, so that its rounds end.
use mcs_qs.Prelude.{
  ℕ, zero, suc, ◌<◌, ◌≡◌, ◌⊎◌, refl, arith, Bool, true, false, Option, none, some, List, length,
  length-drop, length-take, take, ◌==◌, if◌then◌else◌, Bool-cases, inl, inr,
}
use mcs_qs.Log.{Env, LogMessage, register_category}
use mcs_qs.Log.Shrinks.{
  Shrinks, then-Shrinks, if-Shrinks, fail-Shrinks, read_var_int-Shrinks, read_category-Shrinks,
  read_entry-Shrinks,
}
use mcs_qs.Log.Reader.{
  LogReader, Read, continue, pure, fail, skip, var_int_of, read_var_int, read_category, read_entry,
  read_rounds, read, ◌>>=◌, ◌>>◌,
}

module _ (env : Env) where
  open env use {Time}

  -- An integer that is read takes a byte at least.
  Takes : {A : Type 0} → Read env A → Type 0
  Takes m = (r : LogReader env) → ((m r).0 ≡ none) ⊎ (length (m r).1.rest < length r.rest)

  skip_first : (n a : ℕ) → 0 < n → Takes (skip env n >>= λ _. pure a)
  unfolding Takes skip
  skip_first n a h r = elim (Bool-cases (length (take n r.rest) == n)) [
    | inl t ↦
        let there : length (take n r.rest) ≡ n = ground arith in
        rw t (inr (omega (arith, h, there, length-take n r.rest, length-drop n r.rest)))
    | inr f ↦ rw f (inl refl)
  ]

  if-Takes :
      {A : Type 0} (b : Bool) (m k : Read env A) → Takes m → Takes k → Takes (if b then m else k)
  if-Takes true m k h g = h
  if-Takes false m k h g = g

  fail-Takes : (A : Type 0) → Takes (fail {env = env} {A = A})
  unfolding Takes
  fail-Takes A r = inl refl

  var_int-Takes : (bs : List ℕ) → Takes (var_int_of env bs)
  unfolding var_int_of
  var_int-Takes bs = if-Takes _ _ _ (skip_first 1 _ (omega arith)) (
      if-Takes _ _ _ (skip_first 3 _ (omega arith))
        (if-Takes _ _ _ (skip_first 7 _ (omega arith)) (fail-Takes ℕ)))

  read_var_int-Takes : Takes (read_var_int env)
  unfolding Takes read_var_int
  read_var_int-Takes r = var_int-Takes (take 7 r.rest) r

  -- A round, on the rounds that are left.
  abbrev round : Read env (LogMessage Time) → ℕ → Read env (LogMessage Time)
  round again next =
      if next == register_category then (do read_category env; again) else read_entry env next

  again_same :
      (again again' : Read env (LogMessage Time)) (o : Option (Unit {0})) (r : LogReader env)
      → again r ≡ again' r
      → continue o (λ _. again) r ≡ continue o (λ _. again') r
  again_same again again' none r h = refl
  again_same again again' (some u) r h = h

  round_same :
      (again again' : Read env (LogMessage Time)) (b : Bool) (next : ℕ) (r : LogReader env)
      → again (read_category env r).1 ≡ again' (read_category env r).1
      → (if b then (do read_category env; again) else read_entry env next) r
        ≡ (if b then (do read_category env; again') else read_entry env next) r
  round_same again again' true next r h =
      again_same again again' (read_category env r).0 (read_category env r).1 h
  round_same again again' false next r h = refl

  rounds_same :
      (again again' : Read env (LogMessage Time)) (n : ℕ) (o : Option ℕ) (r : LogReader env)
      → (o ≡ none) ⊎ (length r.rest < n)
      → ((r' : LogReader env) → length r'.rest < n → again r' ≡ again' r')
      → continue o (round again) r ≡ continue o (round again') r
  unfolding Shrinks
  rounds_same again again' n none r h ih = refl
  rounds_same again again' n (some next) r (inl e) ih = absurd (ground arith)
  rounds_same again again' n (some next) r (inr lt) ih =
      round_same again again' (next == register_category) next r
        (ih (read_category env r).1 (omega (arith, lt, read_category-Shrinks env r)))

  -- More rounds than bytes change nothing.
  read_rounds_enough :
      (n m : ℕ) (r : LogReader env)
      → length r.rest < n
      → length r.rest < m
      → read_rounds env n r ≡ read_rounds env m r
  unfolding read_rounds Takes
  read_rounds_enough zero m r h g = absurd (omega arith)
  read_rounds_enough (suc n) zero r h g = absurd (omega arith)
  read_rounds_enough (suc n) (suc m) r h g =
      rounds_same (read_rounds env n) (read_rounds env m) (length r.rest) (read_var_int env r).0
        (read_var_int env r).1 (read_var_int-Takes r)
        (λ r' lt. read_rounds_enough n m r' (omega (arith, lt, h)) (omega (arith, lt, g)))

  -- However many rounds it is given beyond one for each byte and one more, the decoder reads the same: the rounds
  -- end by themselves, on every file.
  pub read-read_rounds :
      (n : ℕ) (r : LogReader env) → length r.rest < n → read env r ≡ read_rounds env n r
  unfolding read
  read-read_rounds n r h = read_rounds_enough (suc (length r.rest)) n r (omega arith) h

  read_rounds-Shrinks : (n : ℕ) → Shrinks env (read_rounds env n)
  unfolding read_rounds
  read_rounds-Shrinks zero = fail-Shrinks env (LogMessage Time)
  read_rounds-Shrinks (suc n) =
      then-Shrinks env (read_var_int env) (round (read_rounds env n)) (read_var_int-Shrinks env)
        (λ next.
          if-Shrinks env _ _ _
            (then-Shrinks env (read_category env) _ (read_category-Shrinks env)
              (λ _. read_rounds-Shrinks n))
            (read_entry-Shrinks env next))

  continue-Takes :
      {A B : Type 0} (k : A → Read env B) (o : Option A) (r : LogReader env) (n : ℕ)
      → (o ≡ none) ⊎ (length r.rest < n)
      → ((a : A) → Shrinks env (k a))
      → ((continue o k r).0 ≡ none) ⊎ (length (continue o k r).1.rest < n)
  unfolding Shrinks
  continue-Takes k none r n h g = inl refl
  continue-Takes k (some a) r n (inl e) g = absurd (ground arith)
  continue-Takes k (some a) r n (inr lt) g = inr (omega (arith, lt, g a r))

  round-Shrinks : (n next : ℕ) → Shrinks env (round (read_rounds env n) next)
  round-Shrinks n next =
      if-Shrinks env _ _ _
        (then-Shrinks env (read_category env) _ (read_category-Shrinks env)
          (λ _. read_rounds-Shrinks n))
        (read_entry-Shrinks env next)

  -- A message that is read takes a byte at least.
  pub read_takes :
      (r : LogReader env) → ((read env r).0 ≡ none) ⊎ (length (read env r).1.rest < length r.rest)
  unfolding read read_rounds Takes
  read_takes r =
      continue-Takes (round (read_rounds env (length r.rest))) (read_var_int env r).0
        (read_var_int env r).1 (length r.rest) (read_var_int-Takes r)
        (round-Shrinks (length r.rest))
