-- ===== src/Log/File.antt =====
-- A log as a file: its header and its messages, from its first byte to its last.
use mcs_qs.Prelude.{
  ℕ, ◌+◌, ◌^◌, ◌<◌, ◌≡◌, refl, arith, Bool, true, ◌&&◌, Option, some, List, [], ◌++◌, length, map,
  ap, sym, ◌∙◌,
}
use mathlib.Core.List.{append-nil}
use mcs_qs.Prelude.Int.{pos}
use mcs_qs.Ring.{empty_ring}
use mcs_qs.Ring.Refine.{empty_ring-Holds}
use mcs_qs.Log.{Env, LogMessage, log_version, recent_capacity, begin_categories}
use mcs_qs.Log.Bytes.{u8}
use mcs_qs.Log.Parts.{read_u8-Reads}
use mcs_qs.Log.Writer.{LogWriter, write_header, new_writer, append, find_category}
use mcs_qs.Log.Reader.{LogReader, Read, read_header, initialize, new_reader, ◌>>◌}
use mcs_qs.Log.Sync.{key}
use mcs_qs.Log.Session.{write_messages, read_messages, AllFollow, session, both_true, flush_whole}
use mcs_qs.Log.RoundTrip.{Sync}

module _ (env : Env) where
  open env use {Time, Device}

  -- A new encoder and a new decoder.
  start-Sync : (o : Option Device) → Sync env (new_writer env o) (new_reader env []) 0
  unfolding find_category empty_ring
  start-Sync o = record {
    w_time = refl;
    r_time = refl;
    categories = record { counted = refl; listed = λ name id h. absurd (ground (arith, h)) };
    recents = record {
      ws = [];
      xs = [];
      w_holds = empty_ring-Holds recent_capacity (omega arith);
      r_holds = empty_ring-Holds recent_capacity (omega arith);
      keys = refl;
      w_capacity = refl;
      r_capacity = refl;
    };
    flushed = refl;
  }

  -- The header, and messages.
  unfoldable pub write_log : List (LogMessage Time) → Device → LogWriter env × Bool
  write_log ms d =
      let (w, ok) = write_header env (new_writer env (some d)) in
      let (w', more) = write_messages env ms w in (w', ok && more)

  unfoldable pub read_log : ℕ → Read env (List (LogMessage Time))
  read_log n = do initialize env; read_messages env n

  initialize-Reads :
      (bytes : List ℕ)
      → initialize env (new_reader env (u8 log_version ++ bytes)) ≡ (some tt, new_reader env bytes)
  unfolding initialize read_header
  initialize-Reads bytes =
      rw (read_u8-Reads env log_version (omega arith) (new_reader env []) bytes) refl

  header_whole :
      (d : Device)
      → (write_header env (new_writer env (some d))).1 ≡ true
      → (d' : Device) × (((write_header env (new_writer env (some d))).0 ≡ new_writer env (some d'))
          × (env.contents d' ≡ env.contents d ++ u8 log_version))
  unfolding write_header
  header_whole d h = flush_whole env d (append env (u8 log_version) (new_writer env (some d))) h

  read_log_lem :
      (n : ℕ) (bytes : List ℕ) (xs : List (LogMessage Time)) (r : LogReader env)
      → read_messages env n (new_reader env bytes) ≡ (some xs, r)
      → read_log n (new_reader env (u8 log_version ++ bytes)) ≡ (some xs, r)
  unfolding read_log
  read_log_lem n bytes xs r e = rw (initialize-Reads bytes, e) refl

  -- The messages of a log whose writes were whole are read from the file's beginning in their order, of the same
  -- types, categories and bodies and at the same seconds, and nothing is left of the file. No message is fatal; the
  -- first comes before second 2^32 and not at 0xffff, each of the others less than 0xffff seconds after the one
  -- before; bodies and categories are shorter than 2^32 bytes, and there are at most 65532 messages, so that the
  -- numbers of categories do not run out.
  pub read_log-write_log :
      (ms : List (LogMessage Time)) (ts : List ℕ) (d : Device)
      → env.contents d ≡ []
      → AllFollow env 0 ms ts
      → length ms + begin_categories < 2 ^ 16
      → (write_log ms d).1 ≡ true
      → (d' : Device) × (((write_log ms d).0.device ≡ some d')
          × ((xs : List (LogMessage Time)) × ((r : LogReader env) × ((read_log
                      (length ms)
                      (new_reader env (env.contents d'))
                    ≡ (some xs, r))
                  × ((r.rest ≡ [])
                      × ((map key xs ≡ map key ms)
                          × (map (λ x. x.time) xs ≡ map (λ t. env.from_secs (pos t)) ts)))))))
  unfolding write_log
  read_log-write_log ms ts d empty a room ok =
      let w = (write_header env (new_writer env (some d))).0 in
      let (head, others) =
        both_true env (write_header env (new_writer env (some d))).1 (write_messages env ms w).1
          ok in
      let (d1, (same, grown)) = header_whole d head in
      let p =
        session env ms ts (new_writer env (some d1)) (new_reader env []) 0 d1 (start-Sync (some d1))
          refl a (omega (arith, room))
          (ap (λ v. (write_messages env ms v).1) (sym same) ∙ others) in
      let file : env.contents p.d' ≡ u8 log_version ++ (p.bytes ++ []) =
        p.contents
        ∙ ap (λ b. b ++ p.bytes) (grown ∙ ap (λ b. b ++ u8 log_version) empty)
        ∙ ap (λ b. u8 log_version ++ b) (sym (append-nil p.bytes)) in
      (
        p.d',
        (
          ap (λ v. (write_messages env ms v).0.device) same ∙ p.device,
          (
            p.xs,
            (
              record p.r' { rest = [] },
              (
                ap (λ b. read_log (length ms) (new_reader env b)) file
                    ∙ read_log_lem (length ms) (p.bytes ++ []) p.xs (record p.r' { rest = [] })
                        (p.reads []),
                (refl, (p.keys, p.times)),
              ),
            ),
          ),
        ),
      )
