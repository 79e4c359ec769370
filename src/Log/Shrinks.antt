-- ===== src/Log/Shrinks.antt =====
-- The decoder only goes on in the file: each of its methods leaves no more bytes than it found.
use mcs_qs.Prelude.{
  ℕ, ◌≤◌, ◌≡◌, refl, arith, Bool, true, false, Option, none, some, List, length, length-drop, take,
  ltb, if◌then◌else◌, ap, Bool-cases, inl, inr,
}
use mcs_qs.Prelude.Int.{pos}
use mcs_qs.Ring.{at}
use mcs_qs.Log.{Env, LogMessage}
use mcs_qs.Log.Bytes.{from_le}
use mcs_qs.Log.Reader.{
  LogReader, Read, continue, pure, fail, read_bytes, skip, read_u8, read_u64, var_int_of,
  read_var_int, read_string, read_category, add_category, filter_of_flags, advance, recent_or_fail,
  recent_message, read_recent, read_delta, new_message, read_new, remember, read_entry, to_signed,
  type_of_field, ◌>>=◌,
}

module _ (env : Env) where
  open env use {Time}

  unfoldable pub Shrinks : {A : Type 0} → Read env A → Type 0
  Shrinks m = (r : LogReader env) → length (m r).1.rest ≤ length r.rest

  continue-Shrinks :
      {A B : Type 0} (k : A → Read env B) (o : Option A) (r : LogReader env)
      → ((a : A) → Shrinks (k a))
      → length (continue o k r).1.rest ≤ length r.rest
  unfolding Shrinks
  continue-Shrinks k none r h = omega arith
  continue-Shrinks k (some a) r h = h a r

  pub then-Shrinks :
      {A B : Type 0} (m : Read env A) (k : A → Read env B)
      → Shrinks m
      → ((a : A) → Shrinks (k a))
      → Shrinks (m >>= k)
  unfolding Shrinks
  then-Shrinks m k h g r = omega (arith, h r, continue-Shrinks k (m r).0 (m r).1 g)

  pub if-Shrinks :
      {A : Type 0} (b : Bool) (m k : Read env A)
      → Shrinks m
      → Shrinks k
      → Shrinks (if b then m else k)
  if-Shrinks true m k h g = h
  if-Shrinks false m k h g = g

  pure-Shrinks : {A : Type 0} (a : A) → Shrinks (pure {env = env} a)
  unfolding Shrinks
  pure-Shrinks a r = omega arith

  pub fail-Shrinks : (A : Type 0) → Shrinks (fail {env = env} {A = A})
  unfolding Shrinks
  fail-Shrinks A r = omega arith

  -- What does not read.
  kept-Shrinks :
      {A : Type 0} (m : Read env A) → ((r : LogReader env) → (m r).1.rest ≡ r.rest) → Shrinks m
  unfolding Shrinks
  kept-Shrinks m h r = omega (arith, ap length (h r))

  read_bytes-Shrinks : (n : ℕ) → Shrinks (read_bytes env n)
  unfolding Shrinks read_bytes
  read_bytes-Shrinks n r = omega (arith, length-drop n r.rest)

  skip-Shrinks : (n : ℕ) → Shrinks (skip env n)
  unfolding Shrinks skip
  skip-Shrinks n r = omega (arith, length-drop n r.rest)

  var_int-Shrinks : (bs : List ℕ) → Shrinks (var_int_of env bs)
  unfolding var_int_of
  var_int-Shrinks bs =
      if-Shrinks _ _ _ (then-Shrinks (skip env 1) _ (skip-Shrinks 1) (λ _. pure-Shrinks _)) (
        if-Shrinks _ _ _ (then-Shrinks (skip env 3) _ (skip-Shrinks 3) (λ _. pure-Shrinks _)) (
          if-Shrinks _ _ _ (then-Shrinks (skip env 7) _ (skip-Shrinks 7) (λ _. pure-Shrinks _))
            (fail-Shrinks ℕ)))

  pub read_var_int-Shrinks : Shrinks (read_var_int env)
  unfolding Shrinks read_var_int
  read_var_int-Shrinks r = var_int-Shrinks (take 7 r.rest) r

  read_u8-Shrinks : Shrinks (read_u8 env)
  unfolding read_u8
  read_u8-Shrinks =
      then-Shrinks (read_bytes env 1) (λ bs. pure (from_le bs)) (read_bytes-Shrinks 1)
        (λ bs. pure-Shrinks (from_le bs))

  read_u64-Shrinks : Shrinks (read_u64 env)
  unfolding read_u64
  read_u64-Shrinks =
      then-Shrinks (read_bytes env 8) (λ bs. pure (from_le bs)) (read_bytes-Shrinks 8)
        (λ bs. pure-Shrinks (from_le bs))

  read_string-Shrinks : Shrinks (read_string env)
  unfolding read_string
  read_string-Shrinks = then-Shrinks (read_var_int env) _ read_var_int-Shrinks read_bytes-Shrinks

  pub read_category-Shrinks : Shrinks (read_category env)
  unfolding read_category
  read_category-Shrinks = then-Shrinks (read_string env) _ read_string-Shrinks (λ name.
      then-Shrinks (read_u8 env) _ read_u8-Shrinks
        (λ flags. kept-Shrinks (add_category env (name, filter_of_flags flags)) (λ r. refl)))

  recent_or_fail-Shrinks :
      (b : Bool) (o : Option (LogMessage Time)) → Shrinks (recent_or_fail env b o)
  unfolding Shrinks
  recent_or_fail-Shrinks true (some m) r = omega arith
  recent_or_fail-Shrinks true none r = omega arith
  recent_or_fail-Shrinks false o r = omega arith

  recent_message-Shrinks : (index delta : ℕ) → Shrinks (recent_message env index delta)
  unfolding Shrinks recent_message
  recent_message-Shrinks index delta r = elim (Bool-cases (ltb index r.recent_messages.size)) [
    | inl t ↦ rw t (
        recent_or_fail-Shrinks true (at r.recent_messages index)
          (record r { last_message_time = env.add_secs r.last_message_time (pos delta) }))
    | inr f ↦ rw f (omega arith)
  ]

  read_recent-Shrinks : (op : ℕ) → Shrinks (read_recent env op)
  unfolding read_recent
  read_recent-Shrinks op =
      if-Shrinks _ _ _
        (then-Shrinks (read_u8 env) _ read_u8-Shrinks (λ _. recent_message-Shrinks _ _))
        (then-Shrinks (read_u8 env) _ read_u8-Shrinks (λ index.
          then-Shrinks (read_var_int env) _ read_var_int-Shrinks (recent_message-Shrinks index)))

  read_delta-Shrinks : (field : ℕ) → Shrinks (read_delta env field)
  unfolding read_delta
  read_delta-Shrinks field =
      if-Shrinks _ _ _ read_u64-Shrinks
        (if-Shrinks _ _ _ read_var_int-Shrinks (if-Shrinks _ _ _ read_u64-Shrinks (pure-Shrinks _)))

  read_new-Shrinks : (id : ℕ) → Shrinks (read_new env id)
  unfolding read_new
  read_new-Shrinks id = then-Shrinks (read_u8 env) _ read_u8-Shrinks (λ field.
      then-Shrinks (read_delta env field) _ (read_delta-Shrinks field) (λ delta.
        then-Shrinks (advance env (to_signed delta)) _
          (kept-Shrinks (advance env (to_signed delta)) (λ r. refl))
          (λ _. then-Shrinks (read_string env) _ read_string-Shrinks (λ body.
            kept-Shrinks (new_message env (type_of_field env field) id body) (λ r. refl)))))

  pub read_entry-Shrinks : (next : ℕ) → Shrinks (read_entry env next)
  unfolding read_entry
  read_entry-Shrinks next =
      then-Shrinks _ (remember env)
        (if-Shrinks _ _ _ (read_recent-Shrinks next) (read_new-Shrinks _))
        (λ m. kept-Shrinks (remember env m) (λ r. refl))
