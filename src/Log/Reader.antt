-- ===== src/Log/Reader.antt =====
-- `DeviceReader` and `EncodedLogReader` of core/logging.cpp. The device is a file, read to its end:
-- the state holds its unread bytes. A method returns `none` where the source returns false, beside
-- the state that it leaves.
use mcs_qs.Prelude.{
  ℕ, zero, suc, ◌-◌, ◌/◌, ◌%◌, ◌^◌, Bool, true, ◌&&◌, ◌||◌, not, Option, none, some, List, [], ◌∷◌,
  ◌++◌, length, take, drop, get_elem?, ltb, leb, ◌==◌, if◌then◌else◌, bit_and,
}
use mcs_qs.Prelude.Int.{ℤ, pos, negsuc}
use mcs_qs.Ring.{Ring, empty_ring, at, emplace}
use mcs_qs.Log.Bytes.{from_le}
use mcs_qs.Log.{
  LogMessage, CategoryFilter, Env, MsgType, fatal_msg, default_filter, log_version,
  register_category, recent_message_short, begin_categories, type_of_compressed, recent_capacity,
}

module _ (env : Env) where
  open env use {Time}

  pub record LogReader : Type 0 where
    pub rest : List ℕ
    pub categories : List (List ℕ × CategoryFilter)
    pub last_message_time : Time
    pub recent_messages : Ring (LogMessage Time)

-- A method of the reader.
abbrev pub Read : Env → Type 0 → Type 0
Read env A = LogReader env → Option A × LogReader env

module _ {env : Env} where
  abbrev pub continue : {A B : Type 0} → Option A → (A → Read env B) → Read env B
  continue none f r = (none, r)
  continue (some a) f r = f a r

  infixl 5 ◌>>=◌ ◌>>◌
  abbrev pub ◌>>=◌ : {A B : Type 0} → Read env A → (A → Read env B) → Read env B
  ◌>>=◌ m f r = let (o, r') = m r in continue o f r'

  abbrev pub ◌>>◌ : {B : Type 0} → Read env (Unit {0}) → Read env B → Read env B
  m >> k = m >>= λ _. k

  abbrev pub pure : {A : Type 0} → A → Read env A
  pure a r = (some a, r)

  abbrev pub fail : {A : Type 0} → Read env A
  fail r = (none, r)

-- Byte `i` of a zeroed array that holds the bytes read.
abbrev pub byte_at : ℕ → List ℕ → ℕ
byte_at i [] = 0
byte_at zero (b ∷ bs) = b
byte_at (suc i) (b ∷ bs) = byte_at i bs

-- The quint64 of `secondDelta`, cast to a signed number.
unfoldable pub to_signed : ℕ → ℤ
to_signed n = if ltb n (2 ^ 63) then pos n else negsuc (2 ^ 64 - 1 - n)

abbrev bool_of : ℕ → Bool
bool_of n = not (n == 0)

-- The bits of a flags byte.
unfoldable pub filter_of_flags : ℕ → CategoryFilter
filter_of_flags flags = record {
  debug = bool_of (flags % 2);
  info = bool_of (flags / 2 % 2);
  warn = bool_of (flags / 4 % 2);
  critical = bool_of (flags / 8 % 2);
}

-- QVector::value, which returns a default value out of range.
abbrev pub category_or_default : Option (List ℕ × CategoryFilter) → List ℕ × CategoryFilter
category_or_default none = ([], default_filter)
category_or_default (some c) = c

module _ (env : Env) where
  open env use {Time}

  abbrev pub new_reader : List ℕ → LogReader env
  new_reader rest = record {
    rest = rest;
    categories = [];
    last_message_time = env.from_secs (pos 0);
    recent_messages = empty_ring recent_capacity;
  }

  unfoldable pub read_bytes : ℕ → Read env (List ℕ)
  read_bytes n r =
      let got = take n r.rest in
      (if length got == n then some got else none, record r { rest = drop n r.rest })

  -- `QIODevice::skip` of bytes that were peeked.
  unfoldable pub skip : ℕ → Read env (Unit {0})
  skip n r =
      (if length (take n r.rest) == n then some tt else none, record r { rest = drop n r.rest })

  unfoldable pub read_u8 : Read env ℕ
  read_u8 = do bs ← read_bytes 1; pure (from_le bs)

  unfoldable pub read_u64 : Read env ℕ
  read_u64 = do bs ← read_bytes 8; pure (from_le bs)

  -- The three forms of `readVarInt`, by the bytes peeked.
  unfoldable pub var_int_of : List ℕ → Read env ℕ
  var_int_of bs =
      if not (byte_at 0 bs == 0xff) && leb 1 (length bs)
      then (do skip 1; pure (byte_at 0 bs))
      else if (not (byte_at 1 bs == 0xff) || not (byte_at 2 bs == 0xff)) && leb 3 (length bs)
      then (do skip 3; pure (from_le (byte_at 1 bs ∷ byte_at 2 bs ∷ [])))
      else if length bs == 7
      then (do
        skip 7
        pure (from_le (byte_at 3 bs ∷ byte_at 4 bs ∷ byte_at 5 bs ∷ byte_at 6 bs ∷ [])))
      else fail

  unfoldable pub read_var_int : Read env ℕ
  read_var_int r = var_int_of (take 7 r.rest) r

  unfoldable pub read_string : Read env (List ℕ)
  read_string = do n ← read_var_int; read_bytes n

  abbrev pub add_category : List ℕ × CategoryFilter → Read env (Unit {0})
  add_category c r = (some tt, record r { categories = r.categories ++ c ∷ [] })

  unfoldable pub read_category : Read env (Unit {0})
  read_category = do name ← read_string; flags ← read_u8; add_category (name, filter_of_flags flags)

  -- The time moves on by a number of seconds.
  abbrev pub advance : ℤ → Read env (Unit {0})
  advance delta r =
      (some tt, record r { last_message_time = env.add_secs r.last_message_time delta })

  -- The `index`-th newest message, at the reader's time.
  abbrev pub recent_or_fail : Bool → Option (LogMessage Time) → Read env (LogMessage Time)
  recent_or_fail true (some m) r = (some (record m { time = r.last_message_time }), r)
  recent_or_fail _ _ r = (none, r)

  unfoldable pub recent_message : ℕ → ℕ → Read env (LogMessage Time)
  recent_message index delta r =
      if ltb index r.recent_messages.size
      then recent_or_fail true (at r.recent_messages index)
          (record r { last_message_time = env.add_secs r.last_message_time (pos delta) })
      else (none, r)

  -- The two entries that refer to a recent message.
  unfoldable pub read_recent : ℕ → Read env (LogMessage Time)
  read_recent op =
      if op == recent_message_short
      then (do field ← read_u8; recent_message (bit_and field 0xf) (field / 16))
      else (do index ← read_u8; delta ← read_var_int; recent_message index delta)

  -- The number of seconds behind the field byte: in the field, in an integer, or in 64 bits.
  unfoldable pub read_delta : ℕ → Read env ℕ
  read_delta field =
      if field == 0xff
      then read_u64
      else if field / 8 == 0x1d
      then read_var_int
      else if field / 8 == 0x1e
      then read_u64
      else pure (field / 8)

  abbrev pub type_of_field : ℕ → MsgType
  type_of_field field = if field == 0xff then fatal_msg else type_of_compressed (bit_and field 0x07)

  -- A message of the category `id`.
  abbrev pub new_message : MsgType → ℕ → List ℕ → Read env (LogMessage Time)
  new_message type id body r = (
    some (record {
      type = type;
      time = r.last_message_time;
      category = (category_or_default (get_elem? r.categories id)).0;
      body = body;
      read_category_id = id % 2 ^ 16;
    }),
    r,
  )

  unfoldable pub read_new : ℕ → Read env (LogMessage Time)
  read_new id = do
    field ← read_u8
    delta ← read_delta field
    advance (to_signed delta)
    body ← read_string
    new_message (type_of_field field) id body

  -- `recentMessages.emplace(*slot)`
  abbrev pub remember : LogMessage Time → Read env (LogMessage Time)
  remember m r = (some m, record r { recent_messages = emplace m r.recent_messages })

  unfoldable pub read_entry : ℕ → Read env (LogMessage Time)
  read_entry next = do
    m ← (if ltb next begin_categories then read_recent next else read_new (next - begin_categories))
    remember m

  -- Each round of the label `start` takes a byte at least, so one more round than bytes is enough.
  unfoldable pub read_rounds : ℕ → Read env (LogMessage Time)
  read_rounds zero = fail
  read_rounds (suc rounds) = do
    next ← read_var_int
    (if next == register_category then (do read_category; read_rounds rounds) else read_entry next)

  unfoldable pub read : Read env (LogMessage Time)
  read r = read_rounds (suc (length r.rest)) r

  -- `readHeader`: the version of the log, and whether it is this version.
  unfoldable pub read_header : Read env (Bool × ℕ)
  read_header = do version ← read_u8; pure (version == log_version, version)

  -- `LogReader::initialize`, without its messages.
  unfoldable pub initialize : Read env (Unit {0})
  initialize = do (readable, version) ← read_header; (if readable then pure tt else fail)

  unfoldable pub category_filter_by_id : ℕ → LogReader env → CategoryFilter
  category_filter_by_id id r = (category_or_default (get_elem? r.categories id)).1
