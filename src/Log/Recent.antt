-- ===== src/Log/Recent.antt =====
-- An entry that refers to a recent message, read back.
use native.Mathlib.Nat.{mod-eq_of_lt}
use mcs_qs.Prelude.{
  ℕ, ◌+◌, ◌*◌, ◌/◌, ◌^◌, ◌<◌, ◌≡◌, arith, false, ◌&&◌, some, List, ◌++◌, ltb, Bool-cases, inl, inr,
}
use mcs_qs.Prelude.Int.{pos}
use mcs_qs.Ring.{at}
use mcs_qs.Log.{Env, LogMessage, recent_message_short, recent_message_long, begin_categories}
use mcs_qs.Log.Bytes.{u8, var_int}
use mcs_qs.Log.Fields.{index_field}
use mcs_qs.Log.Writer.{recent_entry}
use mcs_qs.Log.Reader.{LogReader, read_recent, recent_message}
use mcs_qs.Log.Parts.{Steps, at_rest, read_u8-Reads, read_var_int-Reads}
use mcs_qs.Log.Times.{later}

module _ (env : Env) where
  open env use {Time}

  -- The message that comes back, at the reader's new time.
  abbrev pub again : LogMessage Time → ℕ → LogReader env → LogMessage Time
  again z d r = record z { time = (later env d r).last_message_time }

  recent_message_lem :
      (r : LogReader env) (z : LogMessage Time) (index d : ℕ)
      → at r.recent_messages index ≡ some z
      → index < r.recent_messages.size
      → recent_message env index d r ≡ (some (again z d r), later env d r)
  unfolding recent_message
  recent_message_lem r z index d e h = rw e (ground arith)

  short_entry :
      (index d : ℕ)
      → index < 16
      → d < 16
      → recent_entry env index (pos d) ≡ var_int recent_message_short ++ u8 (index + d * 16)
  unfolding recent_entry var_int
  short_entry index d hi hd =
      rw (mod-eq_of_lt {n = d * 16} {m = 256} (omega arith), (index_field index d hi hd).0)
        (ground arith)

  long_entry :
      (index d : ℕ)
      → (ltb d 16 && ltb index 16) ≡ false
      → d < 2 ^ 32
      → recent_entry env index (pos d) ≡ var_int recent_message_long ++ (u8 index ++ var_int d)
  unfolding recent_entry var_int
  long_entry index d h hd = rw (mod-eq_of_lt {n = d} {m = 2 ^ 32} hd) (ground arith)

  short-Steps :
      (r : LogReader env) (z : LogMessage Time) (index d : ℕ)
      → index < 16
      → d < 16
      → at r.recent_messages index ≡ some z
      → index < r.recent_messages.size
      → Steps env
          (read_recent env recent_message_short)
          r
          (u8 (index + d * 16))
          (again z d r)
          (later env d r)
  unfolding read_recent
  short-Steps r z index d hi hd e h more =
      let q : (index + d * 16) / 16 ≡ d = omega arith in
      rw (read_u8-Reads env (index + d * 16) (omega arith) r more, (index_field index d hi hd).1, q)
        (recent_message_lem (at_rest env r more) z index d e h)

  long-Steps :
      (r : LogReader env) (z : LogMessage Time) (index d : ℕ)
      → index < 256
      → d < 2 ^ 32
      → at r.recent_messages index ≡ some z
      → index < r.recent_messages.size
      → Steps env
          (read_recent env recent_message_long)
          r
          (u8 index ++ var_int d)
          (again z d r)
          (later env d r)
  unfolding read_recent
  long-Steps r z index d hi hd e h more =
      rw (read_u8-Reads env index hi r (var_int d ++ more), read_var_int-Reads env d hd r more)
        (recent_message_lem (at_rest env r more) z index d e h)

  -- An entry that refers to a message by its index reads back as that message, the given number of
  -- seconds later, in both of its forms.
  pub recent_entry-Steps :
      (r : LogReader env) (z : LogMessage Time) (index d : ℕ)
      → index < 256
      → d < 2 ^ 32
      → at r.recent_messages index ≡ some z
      → index < r.recent_messages.size
      → (op : ℕ) × ((bytes : List ℕ) × ((recent_entry env index (pos d) ≡ var_int op ++ bytes)
            × ((0 < op)
                × ((op < begin_categories)
                    × Steps env (read_recent env op) r bytes (again z d r) (later env d r)))))
  recent_entry-Steps r z index d hi hd e h = elim (Bool-cases (ltb d 16 && ltb index 16)) [
    | inl t ↦ (
      recent_message_short,
      (
        u8 (index + d * 16),
        (
          short_entry index d (ground arith) (ground arith),
          (omega arith, (omega arith, short-Steps r z index d (ground arith) (ground arith) e h)),
        ),
      ),
    )
    | inr f ↦ (
      recent_message_long,
      (
        u8 index ++ var_int d,
        (long_entry index d f hd, (omega arith, (omega arith, long-Steps r z index d hi hd e h))),
      ),
    )
  ]
