-- ===== src/Log/Writer.antt =====
-- `EncodedLogWriter` of core/logging.cpp.
use mcs_qs.Prelude.{
  ℕ, ◌+◌, ◌*◌, ◌%◌, ◌^◌, Bool, true, false, ◌&&◌, Option, none, some, List, [], ◌∷◌, ◌++◌, length,
  ltb, if◌then◌else◌, bit_or,
}
use mcs_qs.Prelude.Int.{ℤ, pos, negsuc, sub_ℕ, ltb_ℤ, leb_ℤ, eqb_ℤ, wrap}
use mcs_qs.Ring.{Ring, empty_ring, at, emplace_hashed, index_of}
use mcs_qs.Log.Bytes.{u8, u64, var_int, string}
use mcs_qs.Log.{
  LogMessage, CategoryFilter, Env, MsgType, fatal_msg, same_bytes, same_message, q_hash,
  log_version, register_category, recent_message_short, recent_message_long, begin_categories,
  compressed_type_of, recent_capacity,
}

-- `x << k` on a signed number, for `m` = 2 ^ k.
abbrev pub shift_left : ℕ → ℤ → ℤ
shift_left m (pos n) = pos (n * m)
shift_left m (negsuc n) = sub_ℕ 0 ((n + 1) * m)

-- QHash::contains and QHash::value
unfoldable pub find_category : List ℕ → List (List ℕ × ℕ) → Option ℕ
find_category name [] = none
find_category name ((n, id) ∷ cs) = if same_bytes name n then some id else find_category name cs

abbrev pub bit : Bool → ℕ
bit true = 1
bit false = 0

-- The flags byte of a registered category.
unfoldable pub filter_flags : CategoryFilter → ℕ
filter_flags f =
    bit_or (bit_or (bit_or (bit f.debug * 1) (bit f.info * 2)) (bit f.warn * 4))
      (bit f.critical * 8)

abbrev pub is_fatal : MsgType → Bool
is_fatal fatal_msg = true
is_fatal _ = false

module _ (env : Env) where
  open env use {Time, Device}

  pub record LogWriter : Type 0 where
    pub device : Option Device
    pub buffer : List ℕ
    pub categories : List (List ℕ × ℕ)
    pub next_category : ℕ
    pub last_message_time : Time
    pub recent_messages : Ring (ℕ × LogMessage Time)

module _ (env : Env) where
  open env use {Time, Device}

  abbrev pub new_writer : Option Device → LogWriter env
  new_writer device = record {
    device = device;
    buffer = [];
    categories = [];
    next_category = begin_categories;
    last_message_time = env.from_secs (pos 0);
    recent_messages = empty_ring recent_capacity;
  }

  abbrev pub append : List ℕ → LogWriter env → LogWriter env
  append bytes w = record w { buffer = w.buffer ++ bytes }

  -- `WriteBuffer::flush`; without a device the source would go through a null pointer, and `write`
  -- does not come here.
  unfoldable pub flush : Option Device → LogWriter env → LogWriter env × Bool
  flush none w = (record w { buffer = [] }, false)
  flush (some d) w =
      let (d', written) = env.write d w.buffer in
      (record w { device = some d'; buffer = [] }, eqb_ℤ written (pos (length w.buffer)))

  unfoldable pub write_header : LogWriter env → LogWriter env × Bool
  write_header w = flush w.device (append (u8 log_version) w)

  -- The id is a `quint16`, and so is the counter.
  unfoldable pub get_or_create_category : List ℕ → LogWriter env → ℕ × LogWriter env
  get_or_create_category category w = elim (find_category category w.categories) [
    | some id ↦ (id, w)
    | none ↦ (
      w.next_category,
      record (append
          (u8 register_category ++ (string category ++ u8 (filter_flags (env.get_filter category))))
          w) {
            next_category = (w.next_category + 1) % 2 ^ 16;
            categories = (category, w.next_category) ∷ w.categories;
          },
    )
  ]

  -- `QDateTime::toSecsSinceEpoch` as a `quint64`.
  abbrev pub full_timestamp : Time → List ℕ
  full_timestamp t = u64 (wrap (2 ^ 64) (env.to_secs t))

  -- An entry that refers to the `index`-th newest message.
  unfoldable pub recent_entry : ℕ → ℤ → List ℕ
  recent_entry index delta =
      if ltb_ℤ delta (pos 16) && ltb index 16
      then u8 recent_message_short ++ u8 (bit_or index (wrap 256 (shift_left 16 delta)))
      else u8 recent_message_long ++ (u8 index ++ var_int (wrap (2 ^ 32) delta))

  -- The field byte and the time of a new message.
  unfoldable pub time_field : LogMessage Time → ℤ → List ℕ
  time_field m delta =
      if is_fatal m.type
      then u8 0xff ++ full_timestamp m.time
      else if leb_ℤ (pos 0x1d) delta
      then u8 (
          bit_or (compressed_type_of m.type)
            ((if ltb_ℤ delta (pos 0xffff) then 0x1d else 0x1e) * 8))
        ++ (if ltb_ℤ (pos 0xffff) delta
            then full_timestamp m.time
            else var_int (wrap (2 ^ 32) delta))
      else u8 (bit_or (compressed_type_of m.type) (wrap 256 (shift_left 8 delta)))

  unfoldable pub new_entry : LogMessage Time → ℤ → LogWriter env → LogWriter env
  new_entry m delta w =
      let (id, w') = get_or_create_category m.category w in
      append (var_int id ++ (time_field m delta ++ string m.body)) w'

  -- The message that is remembered: its body is that of the equal one, if there is one.
  unfoldable pub remembered : LogMessage Time → Option (ℕ × LogMessage Time) → LogMessage Time
  remembered m none = m
  remembered m (some (h, prev)) = record m { body = prev.body }

  abbrev pub recent_slot : Option ℕ → Ring (ℕ × LogMessage Time) → Option (ℕ × LogMessage Time)
  recent_slot none r = none
  recent_slot (some i) r = at r i

  abbrev pub entry : Option ℕ → LogMessage Time → ℤ → LogWriter env → LogWriter env
  entry (some index) m delta w = append (recent_entry index delta) w
  entry none m delta w = new_entry m delta w

  -- `write` up to its `flush`.
  unfoldable pub encode : LogMessage Time → LogWriter env → LogWriter env
  encode m w =
      let index = index_of (q_hash env) same_message m w.recent_messages in
      let kept = record (remembered m (recent_slot index w.recent_messages)) {
        read_category_id = 0;
      } in
      let w' = record w {
        recent_messages = emplace_hashed (q_hash env) same_message kept w.recent_messages;
      } in
      let delta = env.secs_to w.last_message_time m.time in
      record (entry index m delta w') { last_message_time = env.from_secs (env.to_secs m.time) }

  unfoldable pub write_on : Option Device → LogMessage Time → LogWriter env → LogWriter env × Bool
  write_on none m w = (w, false)
  write_on (some d) m w = let w' = encode m w in flush w'.device w'

  unfoldable pub write : LogMessage Time → LogWriter env → LogWriter env × Bool
  write m w = write_on w.device m w
