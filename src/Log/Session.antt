-- ===== src/Log/Session.antt =====
-- Messages written one after the other through the device, and read one after the other.
use mcs_qs.Prelude.{
  ℕ, zero, suc, ◌+◌, ◌^◌, ◌≤◌, ◌<◌, ◌≡◌, ◌≢◌, ◌⊎◌, refl, arith, Bool, true, false, ◌&&◌, Option,
  some, List, [], ◌∷◌, ◌++◌, length, map, ap, sym, ◌∙◌,
}
use mathlib.Core.List.{append_assoc, append-nil}
use mcs_qs.Prelude.Int.{ℤ, pos, negsuc, eqb_ℤ}
use mcs_qs.Log.{Env, LogMessage, fatal_msg}
use mcs_qs.Log.Writer.{LogWriter, encode, write, write_on, flush}
use mcs_qs.Log.Reader.{LogReader, Read, read, pure, ◌>>=◌}
use mcs_qs.Log.Sync.{key}
use mcs_qs.Log.RoundTrip.{Sync, Plain, emptied, carried, read-carried, encode-kept}

module _ (env : Env) where
  open env use {Time, Device}

  -- Messages written one after the other, and whether every write was whole.
  unfoldable pub write_messages : List (LogMessage Time) → LogWriter env → LogWriter env × Bool
  write_messages [] w = (w, true)
  write_messages (m ∷ ms) w =
      let (w', ok) = write env m w in let (w'', more) = write_messages ms w' in (w'', ok && more)

  -- So many messages, or none if one cannot be read.
  unfoldable pub read_messages : ℕ → Read env (List (LogMessage Time))
  read_messages zero = pure []
  read_messages (suc n) = do x ← read env; xs ← read_messages n; pure (x ∷ xs)

  -- A message `t` seconds after the epoch, less than 0xffff after one at `s`, or first (after 0), before
  -- 2^32 and not at 0xffff.
  pub record Follows (m : LogMessage Time) (s t : ℕ) : Type 0 where
    pub not_fatal : m.type ≢ fatal_msg
    pub secs : env.to_secs m.time ≡ pos t
    pub in_order : s ≤ t
    pub near : (t < s + 0xffff) ⊎ ((s ≡ 0) × ((0xffff < t) × (t < 2 ^ 32)))
    pub short_body : length m.body < 2 ^ 32
    pub short_category : length m.category < 2 ^ 32

  -- Messages at the seconds `ts`, the first one after `s`.
  abbrev pub AllFollow : ℕ → List (LogMessage Time) → List ℕ → Type 0
  AllFollow s [] [] = Unit {0}
  AllFollow s [] (t ∷ ts) = ⊥
  AllFollow s (m ∷ ms) [] = ⊥
  AllFollow s (m ∷ ms) (t ∷ ts) = Follows m s t × AllFollow t ms ts

  -- What is read of what was written.
  pub record Session (ms : List (LogMessage Time)) (ts : List ℕ) (w : LogWriter env)
      (r : LogReader env) (d : Device) : Type 0 where
    pub bytes : List ℕ
    pub d' : Device
    pub device : (write_messages ms w).0.device ≡ some d'
    pub contents : env.contents d' ≡ env.contents d ++ bytes
    pub xs : List (LogMessage Time)
    pub r' : LogReader env
    pub reads :
        (more : List ℕ)
        → read_messages (length ms) (record r { rest = bytes ++ more })
          ≡ (some xs, record r' { rest = more })
    pub keys : map key xs ≡ map key ms
    pub times : map (λ x. x.time) xs ≡ map (λ t. env.from_secs (pos t)) ts

  eqb_pos : (z : ℤ) (n : ℕ) → eqb_ℤ z (pos n) ≡ true → z ≡ pos n
  eqb_pos (pos k) n h = ap pos (ground arith)
  eqb_pos (negsuc k) n h = absurd (ground arith)

  pub flush_whole :
      (d : Device) (w : LogWriter env)
      → (flush env (some d) w).1 ≡ true
      → (d' : Device) × (((flush env (some d) w).0 ≡ record (emptied env w) { device = some d' })
          × (env.contents d' ≡ env.contents d ++ w.buffer))
  unfolding flush
  flush_whole d w h = (
    (env.write d w.buffer).0,
    (refl, env.write_all d w.buffer (eqb_pos (env.write d w.buffer).1 (length w.buffer) h)),
  )

  write_flushes :
      (m : LogMessage Time) (w : LogWriter env) (d : Device)
      → w.device ≡ some d
      → (encode env m w).device ≡ w.device
      → write env m w ≡ flush env (some d) (encode env m w)
  unfolding write write_on
  write_flushes m w d e k =
      ap (λ o. write_on env o m w) e ∙ ap (λ o. flush env o (encode env m w)) (k ∙ e)

  -- The device is no part of what the two sides share.
  Sync-device :
      (w : LogWriter env) (r : LogReader env) (s : ℕ) (o : Option Device)
      → Sync env w r s
      → Sync env (record w { device = o }) r s
  Sync-device w r s o y = record {
    w_time = y.w_time;
    r_time = y.r_time;
    categories = y.categories;
    recents = y.recents;
    flushed = y.flushed;
  }

  pub both_true : (a b : Bool) → a && b ≡ true → (a ≡ true) × (b ≡ true)
  both_true true true h = (refl, refl)
  both_true true false h = absurd (ground arith)
  both_true false b h = absurd (ground arith)

  read_one_more :
      (n : ℕ) (r r1 r2 : LogReader env) (x : LogMessage Time) (xs : List (LogMessage Time))
      → read env r ≡ (some x, r1)
      → read_messages n r1 ≡ (some xs, r2)
      → read_messages (suc n) r ≡ (some (x ∷ xs), r2)
  unfolding read_messages
  read_one_more n r r1 r2 x xs e h = rw (e, h) refl

  pub session :
      (ms : List (LogMessage Time)) (ts : List ℕ) (w : LogWriter env) (r : LogReader env) (s : ℕ)
      (d : Device)
      → Sync env w r s
      → w.device ≡ some d
      → AllFollow s ms ts
      → w.next_category + length ms < 2 ^ 16
      → (write_messages ms w).1 ≡ true
      → Session ms ts w r d
  unfolding write_messages read_messages
  session [] [] w r s d y e a room ok = record {
    bytes = [];
    d' = d;
    device = e;
    contents = sym (append-nil (env.contents d));
    xs = [];
    r' = r;
    reads = λ more. refl;
    keys = refl;
    times = refl;
  }
  session [] (t ∷ ts) w r s d y e a room ok = absurd a
  session (m ∷ ms) [] w r s d y e a room ok = absurd a
  session (m ∷ ms) (t ∷ ts) w r s d y e (f, a) room ok =
      let p : Plain env w m s t = record {
        not_fatal = f.not_fatal;
        secs = f.secs;
        in_order = f.in_order;
        near = f.near;
        short_body = f.short_body;
        short_category = f.short_category;
        room = omega (arith, room);
      } in
      let (kept, less) = encode-kept env m w r s t y p in
      let (first, others) =
        both_true (write env m w).1 (write_messages ms (write env m w).0).1 ok in
      let flushed = write_flushes m w d e kept in
      let (d1, (same, grown)) =
        flush_whole d (encode env m w) (ap (λ q. q.1) (sym flushed) ∙ first) in
      let got = carried env m w r s t y p in
      let w1 : LogWriter env = record (emptied env (encode env m w)) { device = some d1 } in
      let step : (write env m w).0 ≡ w1 = ap (λ q. q.0) flushed ∙ same in
      let rest =
        session ms ts w1 got.r' t d1 (Sync-device _ got.r' t (some d1) got.synced) refl a
          (omega (arith, room, less)) (ap (λ v. (write_messages ms v).1) (sym step) ∙ others) in
      record {
        bytes = (encode env m w).buffer ++ rest.bytes;
        d' = rest.d';
        device = ap (λ v. (write_messages ms v).0.device) step ∙ rest.device;
        contents =
            rest.contents
            ∙ ap (λ b. b ++ rest.bytes) grown
            ∙ append_assoc (env.contents d) (encode env m w).buffer rest.bytes;
        xs = got.x ∷ rest.xs;
        r' = rest.r';
        reads = λ more.
            read_one_more (length ms)
              (record r { rest = ((encode env m w).buffer ++ rest.bytes) ++ more })
              (record got.r' { rest = rest.bytes ++ more }) (record rest.r' { rest = more }) got.x
              rest.xs
              (ap (λ b. read env (record r { rest = b }))
                  (append_assoc (encode env m w).buffer rest.bytes more)
                ∙ read-carried env m w r s t y p (rest.bytes ++ more))
              (rest.reads more);
        keys = ap (λ k. k ∷ map key rest.xs) got.same_key ∙ ap (λ ks. key m ∷ ks) rest.keys;
        times =
            ap (λ k. k ∷ map (λ z. z.time) rest.xs) got.x_time
            ∙ ap (λ ks. env.from_secs (pos t) ∷ ks) rest.times;
      }
