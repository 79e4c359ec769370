-- ===== src/Log.antt =====
-- The encoded log: what a log message is, and what its codec takes from outside
-- (core/logging.hpp, core/logging_p.hpp, core/logging.cpp).
pub mod Bytes
pub mod Writer
pub mod Reader
pub mod Fields
pub mod Parts
pub mod Times
pub mod Entries
pub mod Recent
pub mod Sync
pub mod Encode
pub mod RoundTrip
pub mod Session
pub mod Shrinks
pub mod Rounds
pub mod Tail
pub mod Back
pub mod Last
pub mod File
use mcs_qs.Prelude.{
  ℕ, zero, suc, ◌≡◌, Bool, true, false, ◌&&◌, List, [], ◌∷◌, ◌++◌, length, bit_xor, ◌==◌,
}
use mcs_qs.Prelude.Int.{ℤ, pos, ◌+ℤ◌, ◌-ℤ◌, ◌≤ℤ◌}

-- QtMsgType
pub data MsgType : Type 0 where
  debug_msg info_msg warning_msg critical_msg fatal_msg : MsgType

unfoldable pub same_type : MsgType → MsgType → Bool
same_type debug_msg debug_msg = true
same_type info_msg info_msg = true
same_type warning_msg warning_msg = true
same_type critical_msg critical_msg = true
same_type fatal_msg fatal_msg = true
same_type _ _ = false

-- The equality of byte arrays.
unfoldable pub same_bytes : List ℕ → List ℕ → Bool
same_bytes [] [] = true
same_bytes [] (y ∷ ys) = false
same_bytes (x ∷ xs) [] = false
same_bytes (x ∷ xs) (y ∷ ys) = x == y && same_bytes xs ys

pub record CategoryFilter : Type 0 where
  pub debug : Bool
  pub info : Bool
  pub warn : Bool
  pub critical : Bool

abbrev pub default_filter : CategoryFilter
default_filter = record { debug = true; info = true; warn = true; critical = true }

pub record LogMessage (Time : Type 0) : Type 0 where
  pub type : MsgType
  pub time : Time
  pub category : List ℕ
  pub body : List ℕ
  pub read_category_id : ℕ

-- `LogMessage::operator==`, which leaves out the time.
unfoldable pub same_message : {T : Type 0} → LogMessage T → LogMessage T → Bool
unfolding same_type same_bytes
same_message a b =
    same_type a.type b.type && same_bytes a.category b.category && same_bytes a.body b.body

-- What the codec takes from Qt and from the log manager: date times, the output device, the hashes
-- and the filter of a category. The laws are what Qt documents: a date time made from seconds has
-- those seconds; `secsTo` is the difference in seconds, here from a date time of whole seconds to a
-- later one; `addSecs` adds; and a `write` that reports all bytes has appended them.
pub record Env : Type 1 where
  pub Time : Type 0
  pub to_secs : Time → ℤ
  pub from_secs : ℤ → Time
  pub secs_to : Time → Time → ℤ
  pub add_secs : Time → ℤ → Time
  pub Device : Type 0
  pub contents : Device → List ℕ
  pub write : Device → List ℕ → Device × ℤ
  pub hash_type : MsgType → ℕ
  pub hash_bytes : List ℕ → ℕ
  pub get_filter : List ℕ → CategoryFilter
  pub to_secs-from_secs : (n : ℤ) → to_secs (from_secs n) ≡ n
  pub secs_to-from_secs :
      (n : ℤ) (t : Time) → n ≤ℤ to_secs t → secs_to (from_secs n) t ≡ to_secs t -ℤ n
  pub add_secs-from_secs : (n k : ℤ) → add_secs (from_secs n) k ≡ from_secs (n +ℤ k)
  pub write_all :
      (d : Device) (bytes : List ℕ)
      → (write d bytes).1 ≡ pos (length bytes)
      → contents (write d bytes).0 ≡ contents d ++ bytes

-- `qHash` of a message.
unfoldable pub q_hash : (env : Env) → LogMessage env.Time → ℕ
q_hash env m =
    bit_xor (bit_xor (env.hash_type m.type) (env.hash_bytes m.category)) (env.hash_bytes m.body)

-- `EncodedLogOpcode`
abbrev pub register_category : ℕ
register_category = 0

abbrev pub recent_message_short : ℕ
recent_message_short = 1

abbrev pub recent_message_long : ℕ
recent_message_long = 2

abbrev pub begin_categories : ℕ
begin_categories = 3

-- `CompressedLogType`, by value.
unfoldable pub compressed_type_of : MsgType → ℕ
compressed_type_of debug_msg = 0
compressed_type_of info_msg = 1
compressed_type_of warning_msg = 2
compressed_type_of critical_msg = 3
compressed_type_of fatal_msg = 3

unfoldable pub type_of_compressed : ℕ → MsgType
type_of_compressed zero = debug_msg
type_of_compressed (suc zero) = info_msg
type_of_compressed (suc (suc zero)) = warning_msg
type_of_compressed (suc (suc (suc zero))) = critical_msg
type_of_compressed _ = info_msg

abbrev pub log_version : ℕ
log_version = 2

-- `recentMessages {256}`
abbrev pub recent_capacity : ℕ
recent_capacity = 256
