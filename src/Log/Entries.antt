-- ===== src/Log/Entries.antt =====
-- Each kind of entry, read back from the bytes that the encoder writes for it.
use mathlib.Core.List.{append_assoc}
use mcs_qs.Prelude.{
  ℕ, suc, ◌+◌, ◌-◌, ◌^◌, ◌<◌, ◌≡◌, refl, arith, true, false, List, [], ◌∷◌, ◌++◌, length, ltb, ◌==◌,
}
use mcs_qs.Ring.{emplace}
use mcs_qs.Log.{
  Env, LogMessage, CategoryFilter, MsgType, debug_msg, fatal_msg, compressed_type_of,
  type_of_compressed, begin_categories, register_category,
}
use mcs_qs.Log.Bytes.{u8, var_int, string}
use mcs_qs.Log.Writer.{filter_flags}
use mcs_qs.Log.Reader.{
  LogReader, Read, read_u8, read_u64, read_var_int, read_string, read_category, read_recent,
  recent_message, read_delta, read_new, read_entry, read_rounds, to_signed, advance, new_message,
  type_of_field, category_or_default, remember, ◌>>=◌,
}
use mcs_qs.Log.Parts.{Steps, read_var_int-Reads, read_category-Steps}

module _ (env : Env) where
  open env use {Time}

  -- The reader once it has remembered a message.
  abbrev pub remembering : LogMessage Time → LogReader env → LogReader env
  remembering m r = record r { recent_messages = emplace m r.recent_messages }

  not_register : (n : ℕ) → 0 < n → (n == register_category) ≡ false
  not_register n h = ground arith

  read_entry_new :
      (id : ℕ) → read_entry env (id + begin_categories) ≡ (read_new env id >>= remember env)
  unfolding read_entry
  read_entry_new id = rw (new_id id, not_op id)
    where
      not_op : (i : ℕ) → ltb (i + begin_categories) begin_categories ≡ false
      not_op i = ground arith

      new_id : (i : ℕ) → i + begin_categories - begin_categories ≡ i
      new_id i = omega arith

  read_entry_recent :
      (op : ℕ) → op < begin_categories → read_entry env op ≡ (read_recent env op >>= remember env)
  unfolding read_entry
  read_entry_recent op h = rw (is_op op h)
    where
      is_op : (o : ℕ) → o < begin_categories → ltb o begin_categories ≡ true
      is_op o lt = ground arith

  -- The opcode or category, and the entry behind it.
  pub new-Steps :
      (n : ℕ) (r r' : LogReader env) (id : ℕ) (bytes : List ℕ) (m : LogMessage Time)
      → id + begin_categories < 2 ^ 32
      → Steps env (read_new env id) r bytes m r'
      → Steps env
          (read_rounds env (suc n))
          r
          (var_int (id + begin_categories) ++ bytes)
          m
          (remembering m r')
  unfolding read_rounds
  new-Steps n r r' id bytes m fits h more =
      rw
        (
          append_assoc (var_int (id + begin_categories)) bytes more,
          read_var_int-Reads env (id + begin_categories) fits r (bytes ++ more),
        )
        (rw (not_register (id + begin_categories) (omega arith), read_entry_new id, h more) refl)

  pub recent-Steps :
      (n : ℕ) (r r' : LogReader env) (op : ℕ) (bytes : List ℕ) (m : LogMessage Time)
      → 0 < op
      → op < begin_categories
      → Steps env (read_recent env op) r bytes m r'
      → Steps env (read_rounds env (suc n)) r (var_int op ++ bytes) m (remembering m r')
  unfolding read_rounds
  recent-Steps n r r' op bytes m lo hi h more = rw (
    append_assoc (var_int op) bytes more,
    read_var_int-Reads env op (omega arith) r (bytes ++ more),
    not_register op lo,
    read_entry_recent op hi,
    h more,
  )

  pub register-Steps :
      (n : ℕ) (r r' : LogReader env) (name : List ℕ) (f : CategoryFilter) (bytes : List ℕ)
      (m : LogMessage Time)
      → length name < 2 ^ 32
      → Steps env
          (read_rounds env n)
          (record r { categories = r.categories ++ (name, f) ∷ [] })
          bytes
          m
          r'
      → Steps env
          (read_rounds env (suc n))
          r
          ((u8 0 ++ (string name ++ u8 (filter_flags f))) ++ bytes)
          m
          r'
  unfolding read_rounds read_var_int mcs_qs.Log.Reader.var_int_of string
  register-Steps n r r' name f bytes m hn h more =
      rw
        (
          append_assoc (string name ++ u8 (filter_flags f)) bytes more,
          read_var_int-Reads env 0 (omega arith) r
              ((string name ++ u8 (filter_flags f)) ++ (bytes ++ more)),
          read_category-Steps env r name f hn (bytes ++ more),
        )
        (h more)
