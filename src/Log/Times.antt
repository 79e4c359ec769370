-- ===== src/Log/Times.antt =====
-- The time and the body of a new message, read back from the bytes that the encoder writes for it.
use native.Mathlib.Nat.{mod-eq_of_lt}
use mathlib.Core.List.{append_assoc}
use native.Mathlib.Decide.{dec_lt}
use mcs_qs.Prelude.{
  ℕ, ◌+◌, ◌*◌, ◌%◌, ◌^◌, ◌≤◌, ◌<◌, ◌≡◌, ◌≢◌, refl, arith, false, some, List, ◌++◌, length,
  get_elem?, ◌⊎◌, inl, inr,
}
use mcs_qs.Prelude.Int.{pos}
use mcs_qs.Log.{Env, LogMessage, MsgType, debug_msg, fatal_msg, compressed_type_of}
use mcs_qs.Log.Bytes.{u8, u64, var_int, string}
use mcs_qs.Log.Fields.{type_field, type_of_compressed_type_of}
use mcs_qs.Log.Writer.{time_field, is_fatal}
use mcs_qs.Log.Reader.{
  LogReader, Read, read_u8, read_u64, read_var_int, read_string, read_delta, read_new, to_signed,
  advance, new_message, type_of_field, category_or_default, ◌>>=◌,
}
use mcs_qs.Log.Parts.{
  Steps, at_rest, read_u8-Reads, read_u64-Reads, read_var_int-Reads, read_string-Reads,
}

module _ (env : Env) where
  open env use {Time}

  -- The reader after it has moved its time on.
  abbrev pub later : ℕ → LogReader env → LogReader env
  later d r = record r { last_message_time = env.add_secs r.last_message_time (pos d) }

  to_signed_small : (d : ℕ) → d < 2 ^ 63 → to_signed d ≡ pos d
  unfolding to_signed
  to_signed_small d h = ground arith

  -- The message that a reader makes of a type, a category's number and a body.
  abbrev pub new_from : LogReader env → MsgType → ℕ → List ℕ → LogMessage Time
  new_from r type id body = record {
    type = type;
    time = r.last_message_time;
    category = (category_or_default (get_elem? r.categories id)).0;
    body = body;
    read_category_id = id % 2 ^ 16;
  }

  tail-Steps :
      (r : LogReader env) (type : MsgType) (d id : ℕ) (body : List ℕ)
      → d < 2 ^ 63
      → length body < 2 ^ 32
      → Steps env
          (advance env (to_signed d) >>= λ _. read_string env >>= λ b. new_message env type id b)
          r
          (string body)
          (new_from (later d r) type id body)
          (later d r)
  tail-Steps r type d id body hd hb more =
      rw (to_signed_small d hd, read_string-Reads env body hb (later d r) more)

  not_fatal : (t : MsgType) → t ≢ fatal_msg → is_fatal t ≡ false
  not_fatal debug_msg h = refl
  not_fatal fatal_msg h = absurd (h refl)
  not_fatal _ h = refl

  module _ (m : LogMessage Time) (d : ℕ) (h : m.type ≢ fatal_msg) where
    abbrev c : ℕ
    c = compressed_type_of m.type

    c-lt : c < 4
    c-lt = (type_of_compressed_type_of m.type h).1

    time_short : d < 0x1d → time_field env m (pos d) ≡ u8 (c + d * 8)
    unfolding time_field
    time_short hd =
        rw (not_fatal m.type h, mod-eq_of_lt {n = d * 8} {m = 256} (omega arith))
          (ground (arith, (type_field c d (omega (arith, c-lt)) (omega arith)).0))

    time_long : 0x1d ≤ d → d < 0xffff → time_field env m (pos d) ≡ u8 (c + 0x1d * 8) ++ var_int d
    unfolding time_field
    time_long lo hi =
        rw (not_fatal m.type h, mod-eq_of_lt {n = d} {m = 2 ^ 32} (omega arith))
          (ground (arith, (type_field c 0x1d (omega (arith, c-lt)) (omega arith)).0))

    -- A timestamp instead of the seconds since the message before.
    time_full :
        0xffff < d
        → d < 2 ^ 32
        → env.to_secs m.time ≡ pos d
        → time_field env m (pos d) ≡ u8 (c + 0x1e * 8) ++ u64 d
    unfolding time_field
    time_full lo hi e =
        rw (not_fatal m.type h, e, mod-eq_of_lt {n = d} {m = 2 ^ 64} (omega arith))
          (ground (arith, (type_field c 0x1e (omega (arith, c-lt)) (omega arith)).0))

    field_type : (k : ℕ) → k < 0x1f → type_of_field env (c + k * 8) ≡ m.type
    field_type k hk = ground (
      arith,
      c-lt,
      (type_field c k (omega (arith, c-lt)) (omega arith)).1,
      (type_of_compressed_type_of m.type h).0,
    )

  read_delta_short :
      (c d : ℕ) (r : LogReader env) → c < 8 → d < 0x1d → read_delta env (c + d * 8) r ≡ (some d, r)
  unfolding read_delta
  read_delta_short c d r hc hd = ground arith

  read_delta_long :
      (c : ℕ) (r : LogReader env) → c < 8 → read_delta env (c + 0x1d * 8) r ≡ read_var_int env r
  unfolding read_delta
  read_delta_long c r hc = ground arith

  read_delta_full :
      (c : ℕ) (r : LogReader env) → c < 8 → read_delta env (c + 0x1e * 8) r ≡ read_u64 env r
  unfolding read_delta
  read_delta_full c r hc = ground arith

  -- Seconds that are read back: fewer than 0xffff, or those of the message's own time.
  abbrev pub IsNear : LogMessage Time → ℕ → Type 0
  IsNear m d = (d < 0xffff) ⊎ ((0xffff < d) × ((d < 2 ^ 32) × (env.to_secs m.time ≡ pos d)))

  -- Reading the field byte and the number of seconds behind it.
  module _ (m : LogMessage Time) (d : ℕ) (h : m.type ≢ fatal_msg) {B : Type 0}
      (r r' : LogReader env) (k : ℕ → ℕ → Read env B) (bytes : List ℕ) (b : B) where
    abbrev Rest : ℕ → Type 0
    Rest f = Steps env (k f d) r bytes b r'

    abbrev field_then : Read env B
    field_then = read_u8 env >>= λ f. read_delta env f >>= λ delta. k f delta

    short-Steps :
        d < 0x1d
        → Rest (c m d h + d * 8)
        → Steps env field_then r (u8 (c m d h + d * 8) ++ bytes) b r'
    short-Steps hd rest more =
        rw
          (
            read_u8-Reads env (c m d h + d * 8) (omega (arith, c-lt m d h)) r (bytes ++ more),
            read_delta_short (c m d h) d (at_rest env r (bytes ++ more)) (omega (arith, c-lt m d h))
                hd,
          )
          (rest more)

    long-Steps :
        0x1d ≤ d
        → d < 0xffff
        → Rest (c m d h + 0x1d * 8)
        → Steps env field_then r (u8 (c m d h + 0x1d * 8) ++ (var_int d ++ bytes)) b r'
    long-Steps lo hi rest more =
        rw
          (
            append_assoc (var_int d) bytes more,
            read_u8-Reads env (c m d h + 0x1d * 8) (omega (arith, c-lt m d h)) r
                (var_int d ++ (bytes ++ more)),
            read_delta_long (c m d h) (at_rest env r (var_int d ++ (bytes ++ more)))
                (omega (arith, c-lt m d h)),
            read_var_int-Reads env d (omega arith) r (bytes ++ more),
          )
          (rest more)

    full-Steps :
        0xffff < d
        → d < 2 ^ 32
        → Rest (c m d h + 0x1e * 8)
        → Steps env field_then r (u8 (c m d h + 0x1e * 8) ++ (u64 d ++ bytes)) b r'
    full-Steps lo hi rest more =
        rw
          (
            append_assoc (u64 d) bytes more,
            read_u8-Reads env (c m d h + 0x1e * 8) (omega (arith, c-lt m d h)) r
                (u64 d ++ (bytes ++ more)),
            read_delta_full (c m d h) (at_rest env r (u64 d ++ (bytes ++ more)))
                (omega (arith, c-lt m d h)),
            read_u64-Reads env d (omega arith) r (bytes ++ more),
          )
          (rest more)

  -- What is read behind the seconds.
  abbrev rest_of : ℕ → ℕ → ℕ → Read env (LogMessage Time)
  rest_of id f delta = advance env (to_signed delta) >>= λ _.
      read_string env >>= λ b. new_message env (type_of_field env f) id b

  rest-Steps :
      (r : LogReader env) (m : LogMessage Time) (d id f : ℕ)
      → length m.body < 2 ^ 32
      → d < 2 ^ 63
      → type_of_field env f ≡ m.type
      → Steps env
          (rest_of id f d)
          r
          (string m.body)
          (new_from (later d r) m.type id m.body)
          (later d r)
  rest-Steps r m d id f hb hd e = rw e (tail-Steps r m.type d id m.body hd hb)

  -- A new message that is not fatal, less than 0xffff seconds after the one before or with its own time,
  -- reads back with its type and body, that number of seconds later.
  pub read_new-Steps :
      (r : LogReader env) (m : LogMessage Time) (d id : ℕ)
      → m.type ≢ fatal_msg
      → IsNear m d
      → length m.body < 2 ^ 32
      → Steps env
          (read_new env id)
          r
          (time_field env m (pos d) ++ string m.body)
          (new_from (later d r) m.type id m.body)
          (later d r)
  unfolding read_new
  read_new-Steps r m d id h (inr (lo, (hi, e))) hb = rw (time_full m d h lo hi e) (
      full-Steps m d h r (later d r) (rest_of id) _ _ lo hi (
        rest-Steps r m d id (c m d h + 0x1e * 8) hb (omega (arith, hi))
          (field_type m d h 0x1e (omega arith))))
  read_new-Steps r m d id h (inl hd) hb = elim (dec_lt d 0x1d) [
    | yes lt ↦ rw (time_short m d h lt) (
        short-Steps m d h r (later d r) (rest_of id) _ _ lt (
          rest-Steps r m d id (c m d h + d * 8) hb (omega arith)
            (field_type m d h d (omega arith))))
    | no ge ↦ rw (time_long m d h (omega arith) hd) (
        long-Steps m d h r (later d r) (rest_of id) _ _ (omega arith) hd (
          rest-Steps r m d id (c m d h + 0x1d * 8) hb (omega arith)
            (field_type m d h 0x1d (omega arith))))
  ]
