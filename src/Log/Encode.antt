-- ===== src/Log/Encode.antt =====
-- What `write` adds to the buffer, and what it leaves, by case.
use mathlib.Core.List.{append_assoc}
use mcs_qs.Prelude.{
  ℕ, ◌+◌, ◌-◌, ◌%◌, ◌^◌, ◌≤◌, ◌≡◌, refl, arith, Option, none, some, List, ◌∷◌, ◌++◌,
}
use mcs_qs.Prelude.Int.{ℤ, pos, ◌-ℤ◌}
use mcs_qs.Ring.{at, emplace_hashed, index_of}
use mcs_qs.Log.{Env, LogMessage, same_message, q_hash, register_category}
use mcs_qs.Log.Bytes.{u8, var_int, string}
use mcs_qs.Log.Writer.{
  LogWriter, find_category, filter_flags, recent_entry, time_field, append, encode, new_entry,
  get_or_create_category, remembered,
}

module _ (env : Env) where
  open env use {Time}

  -- The encoder after `bytes` for a message that it remembers as `kept`.
  abbrev pub after : LogMessage Time → LogMessage Time → List ℕ → LogWriter env → LogWriter env
  after m kept bytes w = record w {
    buffer = w.buffer ++ bytes;
    last_message_time = env.from_secs (env.to_secs m.time);
    recent_messages = emplace_hashed (q_hash env) same_message kept w.recent_messages;
  }

  module _ (m : LogMessage Time) (w : LogWriter env) where
    abbrev pub delta : ℤ
    delta = env.secs_to w.last_message_time m.time

    abbrev pub found : Option ℕ
    found = index_of (q_hash env) same_message m w.recent_messages

    abbrev pub fields : List ℕ
    fields = time_field env m delta ++ string m.body

    pub encode_recent :
        (i : ℕ) (h : ℕ) (y : LogMessage Time)
        → found ≡ some i
        → at w.recent_messages i ≡ some (h, y)
        → encode env m w
          ≡ after m (record m { body = y.body; read_category_id = 0 }) (recent_entry env i delta) w
    unfolding encode remembered
    encode_recent i h y e g = rw (e, g) refl

    abbrev pub registration : List ℕ
    registration =
        u8 register_category ++ (string m.category ++ u8 (filter_flags (env.get_filter m.category)))

    get_known :
        (id : ℕ) (v : LogWriter env)
        → find_category m.category v.categories ≡ some id
        → get_or_create_category env m.category v ≡ (id, v)
    unfolding get_or_create_category
    get_known id v c = rw (get_or_create_category, c) refl

    get_new :
        (v : LogWriter env)
        → find_category m.category v.categories ≡ none
        → get_or_create_category env m.category v ≡ (
          v.next_category,
          record (append env registration v) {
            categories = (m.category, v.next_category) ∷ v.categories;
            next_category = (v.next_category + 1) % 2 ^ 16;
          },
        )
    unfolding get_or_create_category
    get_new v c = rw (get_or_create_category, c) refl

    new_entry_known :
        (id : ℕ) (d : ℤ) (v : LogWriter env)
        → find_category m.category v.categories ≡ some id
        → new_entry env m d v ≡ append env (var_int id ++ (time_field env m d ++ string m.body)) v
    unfolding new_entry
    new_entry_known id d v c = rw (get_known id v c) refl

    new_entry_new :
        (d : ℤ) (v : LogWriter env)
        → find_category m.category v.categories ≡ none
        → new_entry env m d v
          ≡ record (append env
              (registration ++ (var_int v.next_category ++ (time_field env m d ++ string m.body)))
              v) {
                categories = (m.category, v.next_category) ∷ v.categories;
                next_category = (v.next_category + 1) % 2 ^ 16;
              }
    unfolding new_entry
    new_entry_new d v c =
        rw
          (
            get_new v c,
            append_assoc v.buffer registration
                (var_int v.next_category ++ (time_field env m d ++ string m.body)),
          )
          refl

    -- The encoder with a message remembered.
    abbrev noted : LogWriter env
    noted = record w {
      recent_messages =
          emplace_hashed (q_hash env) same_message (record m { read_category_id = 0 })
            w.recent_messages;
    }

    pub encode_known :
        (id : ℕ)
        → found ≡ none
        → find_category m.category w.categories ≡ some id
        → encode env m w ≡ after m (record m { read_category_id = 0 }) (var_int id ++ fields) w
    unfolding encode remembered
    encode_known id e c = rw (e, new_entry_known id delta noted c) refl

    pub encode_new :
        found ≡ none
        → find_category m.category w.categories ≡ none
        → encode env m w
          ≡ record (after m
              (record m { read_category_id = 0 })
              (registration ++ (var_int w.next_category ++ fields))
              w) {
                categories = (m.category, w.next_category) ∷ w.categories;
                next_category = (w.next_category + 1) % 2 ^ 16;
              }
    unfolding encode remembered
    encode_new e c = rw (e, new_entry_new delta noted c) refl

    pub delta_lem :
        {s t : ℕ}
        → w.last_message_time ≡ env.from_secs (pos s)
        → env.to_secs m.time ≡ pos t
        → s ≤ t
        → delta ≡ pos (t - s)
    unfolding ◌-ℤ◌
    delta_lem {s} {t} e f le =
        rw (e, env.secs_to-from_secs (pos s) m.time (rw f (omega arith)), f) (ground arith)
