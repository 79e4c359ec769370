-- ===== src/Examples/Logging.antt =====
-- A log that is one message long, and integers of its three sizes.
use mcs_qs.Prelude.{
  ℕ, inl, inr, Bool, true, map, ◌≡◌, refl, arith, none, some, List, [], ◌∷◌, ◌++◌, length,
}
use mcs_qs.Prelude.Int.{ℤ, pos, ◌+ℤ◌, ◌-ℤ◌}
use mcs_qs.Ring.{empty_ring}
use mcs_qs.Ring.Refine.{empty_ring-Holds}
use mcs_qs.Log.{Env, LogMessage, warning_msg, default_filter, recent_capacity}
use mcs_qs.Log.Bytes.{var_int}
use mcs_qs.Log.Writer.{
  LogWriter, new_writer, encode, find_category, write, write_on, write_header, flush,
}
use mcs_qs.Log.Reader.{LogReader, new_reader, read, read_rounds}
use mcs_qs.Log.Sync.{key}
use mcs_qs.Log.Rounds.{read-read_rounds}
use mcs_qs.Log.Tail.{Follower, continue_reading}
use mcs_qs.Log.Back.{last_of}
use mcs_qs.Log.Last.{continue_reading-last_of}
use mcs_qs.Log.Session.{write_messages}
use mcs_qs.Log.File.{write_log, read_log, read_log-write_log}
use mcs_qs.Log.RoundTrip.{Sync, Plain, emptied, read-encode}

-- Whole seconds, a device that takes every byte, and hashes that never tell two things apart.
abbrev env : Env
env = record {
  Time = ℤ;
  to_secs = λ t. t;
  from_secs = λ n. n;
  secs_to = λ a b. b -ℤ a;
  add_secs = λ t k. t +ℤ k;
  Device = List ℕ;
  contents = λ d. d;
  write = λ d bytes. (d ++ bytes, pos (length bytes));
  hash_type = λ t. 0;
  hash_bytes = λ b. 0;
  get_filter = λ c. default_filter;
  to_secs-from_secs = λ n. refl;
  secs_to-from_secs = λ n t h. refl;
  add_secs-from_secs = λ n k. refl;
  write_all = λ d bytes h. refl;
}

abbrev writer : LogWriter env
writer = new_writer env none

abbrev reader : LogReader env
reader = new_reader env []

abbrev message : LogMessage ℤ
message = record {
  type = warning_msg;
  time = pos 40;
  category = 113 ∷ 115 ∷ [];
  body = 104 ∷ 105 ∷ [];
  read_category_id = 0;
}

start-Sync : Sync env writer reader 0
unfolding find_category empty_ring
start-Sync = record {
  w_time = refl;
  r_time = refl;
  categories = record { counted = refl; listed = λ name id h. absurd (ground (arith, h)) };
  recents = record {
    ws = [];
    xs = [];
    w_holds = empty_ring-Holds recent_capacity (omega arith);
    r_holds = empty_ring-Holds recent_capacity (omega arith);
    keys = refl;
    w_capacity = refl;
    r_capacity = refl;
  };
  flushed = refl;
}

message-Plain : Plain env writer message 0 40
message-Plain = record {
  not_fatal = λ e. ground (arith, e);
  secs = refl;
  in_order = omega arith;
  near = inl (omega arith);
  short_body = omega arith;
  short_category = omega arith;
  room = omega arith;
}

read-encode_example :
    (x : LogMessage ℤ) × ((r' : LogReader env) × ((read env
            (record reader { rest = (encode env message writer).buffer ++ (0 ∷ []) })
          ≡ (some x, record r' { rest = 0 ∷ [] }))
        × ((key x ≡ key message)
            × ((x.time ≡ pos 40) × Sync env (emptied env (encode env message writer)) r' 40))))
read-encode_example = read-encode env message writer reader 0 40 start-Sync message-Plain (0 ∷ [])

abbrev messages : List (LogMessage ℤ)
messages = record message { time = pos 1700000000 } ∷ record message { time = pos 1700000002 } ∷ []

all_whole : (write_log env messages []).1 ≡ true
unfolding write_log write_messages write write_on write_header flush encode mcs_qs.Ring.index_of
    empty_ring mcs_qs.Log.Writer.new_entry mcs_qs.Log.Writer.get_or_create_category find_category
    mcs_qs.Log.Bytes.string mcs_qs.Log.Writer.time_field ◌-ℤ◌ mcs_qs.Ring.emplace_hashed
    mcs_qs.Ring.emplace ◌+ℤ◌ mcs_qs.Ring.at mcs_qs.Log.q_hash mcs_qs.Log.same_message
    mcs_qs.Log.Writer.remembered mcs_qs.Log.Writer.recent_entry
all_whole = refl

log_example :
    (d : List ℕ) × (((write_log env messages []).0.device ≡ some d)
      × ((xs : List (LogMessage ℤ)) × ((r : LogReader env) × ((read_log env 2 (new_reader env d)
                ≡ (some xs, r))
              × ((r.rest ≡ [])
                  × ((map key xs ≡ map key messages)
                      × (map (λ x. x.time) xs ≡ pos 1700000000 ∷ pos 1700000002 ∷ [])))))))
log_example =
    read_log-write_log env messages (1700000000 ∷ 1700000002 ∷ []) [] refl
      (
        record {
          not_fatal = λ e. ground (arith, e);
          secs = refl;
          in_order = omega arith;
          near = inr (refl, (omega arith, omega arith));
          short_body = omega arith;
          short_category = omega arith;
        },
        (
          record {
            not_fatal = λ e. ground (arith, e);
            secs = refl;
            in_order = omega arith;
            near = inl (omega arith);
            short_body = omega arith;
            short_category = omega arith;
          },
          tt,
        ),
      )
      (omega arith) all_whole

enough_example :
    read env (new_reader env (1 ∷ 2 ∷ [])) ≡ read_rounds env 9 (new_reader env (1 ∷ 2 ∷ []))
enough_example = read-read_rounds env 9 (new_reader env (1 ∷ 2 ∷ [])) (omega arith)

abbrev follower : Follower env
follower = record {
  reader = new_reader env (3 ∷ 20 ∷ 2 ∷ 104 ∷ 105 ∷ []);
  filters = [];
  printed = [];
  tail_ring = empty_ring 0;
}

tail_example :
    (all : List (LogMessage ℤ)) × ((a : Follower env) × ((b : Follower env) × ((ok : Bool)
          × ((continue_reading env 0 [] follower ≡ some (a, ok))
              × ((continue_reading env 1 [] follower ≡ some (b, ok))
                  × ((a.printed ≡ [] ++ all)
                      × ((b.printed ≡ [] ++ last_of 1 all) × (a.reader ≡ b.reader))))))))
tail_example = continue_reading-last_of env 1 [] (omega arith) follower
