-- ===== src/Log/RoundTrip.antt =====
-- A log message that an encoder writes, read back by a decoder of the same log.
use mcs_qs.Prelude.{
  ℕ, suc, ◌+◌, ◌-◌, ◌%◌, ◌^◌, ◌≤◌, ◌<◌, ◌≡◌, ◌≢◌, ◌⊎◌, refl, arith, none, some, List, [], ◌∷◌, ◌++◌,
  length, length-append, get_elem?, Option-cases, inl, inr, ap, sym, ◌∙◌,
}
use mcs_qs.Prelude.Int.{pos, ◌+ℤ◌}
use mcs_qs.Log.{CategoryFilter, Env, LogMessage, fatal_msg}
use mcs_qs.Log.Bytes.{var_int}
use mcs_qs.Log.Writer.{LogWriter, find_category, recent_entry, encode}
use mcs_qs.Log.Reader.{LogReader, read, read_rounds, category_or_default}
use mcs_qs.Log.Parts.{Steps}
use mcs_qs.Log.Times.{later, new_from, IsNear, read_new-Steps}
use mcs_qs.Log.Entries.{remembering, new-Steps, recent-Steps, register-Steps}
use mcs_qs.Log.Recent.{again, recent_entry-Steps}
use mcs_qs.Log.Sync.{
  Key, key, get_elem?-lt, RecentSync, RecentSync-emplace, RecentSync-found, Mirrors,
  Mirrors-register, get_elem?-last,
}
use mcs_qs.Log.Encode.{
  after, delta, found, fields, registration, encode_recent, encode_known, encode_new, delta_lem,
}

module _ (env : Env) where
  open env use {Time}

  -- The two are at the same time and know the same messages and categories; nothing waits to be flushed.
  pub record Sync (w : LogWriter env) (r : LogReader env) (s : ℕ) : Type 0 where
    pub w_time : w.last_message_time ≡ env.from_secs (pos s)
    pub r_time : r.last_message_time ≡ env.from_secs (pos s)
    pub categories : Mirrors env w.categories w.next_category r.categories
    pub recents : RecentSync env w.recent_messages r.recent_messages
    pub flushed : w.buffer ≡ []

  -- A message `t` seconds after the epoch, less than 0xffff seconds after one at `s` or, where none came
  -- before (`s` is then 0), before second 2^32 and not at 0xffff.
  pub record Plain (w : LogWriter env) (m : LogMessage Time) (s t : ℕ) : Type 0 where
    pub not_fatal : m.type ≢ fatal_msg
    pub secs : env.to_secs m.time ≡ pos t
    pub in_order : s ≤ t
    -- A first message has a timestamp of its own.
    pub near : (t < s + 0xffff) ⊎ ((s ≡ 0) × ((0xffff < t) × (t < 2 ^ 32)))
    pub short_body : length m.body < 2 ^ 32
    pub short_category : length m.category < 2 ^ 32
    pub room : w.next_category + 1 < 2 ^ 16

  some_first : (n : ℕ) (bytes : List ℕ) → 0 < length (var_int n ++ bytes)
  unfolding var_int
  some_first n bytes = ground arith

  abbrev pub emptied : LogWriter env → LogWriter env
  emptied w = record w { buffer = [] }

  -- The message that the decoder makes of what the encoder wrote for `m`, and the two behind it.
  pub record Carried (m : LogMessage Time) (w : LogWriter env) (r : LogReader env) (t : ℕ)
      : Type 0 where
    pub x : LogMessage Time
    pub r' : LogReader env
    pub same_key : key x ≡ key m
    pub x_time : x.time ≡ env.from_secs (pos t)
    pub steps : (n : ℕ) → Steps env (read_rounds env (suc (suc n))) r (encode env m w).buffer x r'
    pub nonempty : 0 < length (encode env m w).buffer
    pub synced : Sync (emptied (encode env m w)) r' t
    pub same_device : (encode env m w).device ≡ w.device
    pub one_more : (encode env m w).next_category ≤ w.next_category + 1

  module _ (m : LogMessage Time) (w : LogWriter env) (r : LogReader env) (s t : ℕ) (y : Sync w r s)
      (p : Plain w m s t) where
    abbrev d : ℕ
    d = t - s

    later_time : (later env d r).last_message_time ≡ env.from_secs (pos t)
    unfolding ◌+ℤ◌
    later_time =
        rw (y.r_time, env.add_secs-from_secs (pos s) (pos d))
          (ap env.from_secs (sum d (omega (arith, p.in_order))))
      where
        sum : (k : ℕ) → s + k ≡ t → pos s +ℤ pos k ≡ pos t
        sum k e = ground arith

    -- The decoder with the categories it has then.
    abbrev knowing : List (List ℕ × CategoryFilter) → LogReader env
    knowing known = record r { categories = known }

    carry :
        (cs : List (List ℕ × ℕ)) (next : ℕ) (known : List (List ℕ × CategoryFilter))
        (kept x : LogMessage Time) (bytes : List ℕ)
        → encode env m w
          ≡ record (after env m kept bytes w) { categories = cs; next_category = next }
        → Mirrors env cs next known
        → key kept ≡ key m
        → key x ≡ key m
        → x.time ≡ env.from_secs (pos t)
        → ((n : ℕ)
            → Steps env
                (read_rounds env (suc (suc n)))
                r
                bytes
                x
                (remembering env x (later env d (knowing known))))
        → 0 < length bytes
        → next ≤ w.next_category + 1
        → Carried m w r t
    carry cs next known kept x bytes e mirrors kk kx xt st some_bytes less = record {
      x = x;
      r' = remembering env x (later env d (knowing known));
      same_key = kx;
      x_time = xt;
      steps = λ n. rw (e, y.flushed) (st n);
      nonempty = rw (e, y.flushed) some_bytes;
      synced = rw e (record {
        w_time = ap env.from_secs p.secs;
        r_time = later_time;
        categories = mirrors;
        recents = RecentSync-emplace env kept x (kk ∙ sym kx) y.recents;
        flushed = refl;
      });
      same_device = rw e refl;
      one_more = rw e less;
    }

    gap : delta env m w ≡ pos d
    gap = delta_lem env m w y.w_time p.secs p.in_order

    gap-IsNear : IsNear env m d
    gap-IsNear = go p.near
      where
        go : (t < s + 0xffff) ⊎ ((s ≡ 0) × ((0xffff < t) × (t < 2 ^ 32))) → IsNear env m d
        go (inl h) = inl (omega (arith, h, p.in_order))
        go (inr (e, (lo, hi))) =
            let all : t ≡ d = omega (arith, e) in
            inr (omega (arith, lo, e), (omega (arith, hi), p.secs ∙ ap pos all))

    small_gap : d < 2 ^ 32
    small_gap = go gap-IsNear
      where
        go : IsNear env m d → d < 2 ^ 32
        go (inl h) = omega (arith, h)
        go (inr (lo, (hi, e))) = hi

    carry_recent : (i : ℕ) → found env m w ≡ some i → Carried m w r t
    carry_recent i e =
        let (y', (z, (ha, (kmy, (hb, (kzy, (lt, small))))))) =
          RecentSync-found env m w.recent_messages r.recent_messages i y.recents e in
        let (op, (bytes, (eb, (lo, (hi, st))))) =
          recent_entry-Steps env r z i d small small_gap hb lt in
        carry w.categories w.next_category r.categories
          (record m { body = y'.body; read_category_id = 0 }) (again env z d r)
          (recent_entry env i (delta env m w)) (encode_recent env m w i _ y' e ha) y.categories
          (ap {B = Key} (λ k. (m.type, (m.category, k.1.1))) (sym kmy)) (kzy ∙ sym kmy) later_time
          (λ n. rw (gap, eb) (recent-Steps env (suc n) r (later env d r) op bytes _ lo hi st))
          (rw (gap, eb) (some_first op bytes)) (omega arith)

    carry_known :
        (id : ℕ)
        → found env m w ≡ none
        → find_category m.category w.categories ≡ some id
        → Carried m w r t
    carry_known id e c =
        let (i, (ei, g)) = y.categories.listed m.category id c in
        carry w.categories w.next_category r.categories (record m { read_category_id = 0 })
          (new_from env (later env d r) m.type i m.body) (var_int id ++ fields env m w)
          (encode_known env m w id e c) y.categories refl
          (ap {B = Key} (λ k. (m.type, ((category_or_default k).0, m.body))) g) later_time
          (λ n.
            rw (gap, ei)
              (new-Steps env (suc n) r (later env d r) i _ _
                (omega (arith, get_elem?-lt r.categories i _ g, y.categories.counted, p.room))
                (read_new-Steps env r m d i p.not_fatal gap-IsNear p.short_body)))
          (some_first id (fields env m w)) (omega arith)

    carry_new :
        found env m w ≡ none → find_category m.category w.categories ≡ none → Carried m w r t
    carry_new e c =
        let f = env.get_filter m.category in
        let known : List (List ℕ × CategoryFilter) = r.categories ++ (m.category, f) ∷ [] in
        let i : ℕ = length r.categories in
        let g : get_elem? known i ≡ some (m.category, f) =
          get_elem?-last r.categories (m.category, f) in
        let kept : LogMessage Time = record m { read_category_id = 0 } in
        let x : LogMessage Time = new_from env (later env d (knowing known)) m.type i m.body in
        carry ((m.category, w.next_category) ∷ w.categories) ((w.next_category + 1) % 2 ^ 16) known
          kept x (registration env m w ++ (var_int w.next_category ++ fields env m w))
          (encode_new env m w e c)
          (Mirrors-register env m.category w.categories w.next_category r.categories p.room
            y.categories)
          refl (ap {B = Key} (λ k. (m.type, ((category_or_default k).0, m.body))) g) later_time
          (λ n.
            rw (gap, y.categories.counted)
              (register-Steps env (suc n) r (remembering env x (later env d (knowing known)))
                m.category f _ x p.short_category
                (new-Steps env n (knowing known) (later env d (knowing known)) i _ x
                  (omega (arith, y.categories.counted, p.room))
                  (read_new-Steps env (knowing known) m d i p.not_fatal gap-IsNear p.short_body))))
          (omega arith) (omega arith)

    pub carried : Carried m w r t
    carried = elim (Option-cases (found env m w)) [
      | inr (i, e) ↦ carry_recent i e
      | inl e ↦ elim (Option-cases (find_category m.category w.categories)) [
        | inr (id, c) ↦ carry_known id e c
        | inl c ↦ carry_new e c
      ]
    ]

    pub encode-kept :
        ((encode env m w).device ≡ w.device)
        × ((encode env m w).next_category ≤ w.next_category + 1)
    encode-kept = (carried.same_device, carried.one_more)

    enough_rounds : (n : ℕ) → 0 < n → (k : ℕ) × (suc n ≡ suc (suc k))
    enough_rounds n h = (n - 1, omega arith)

    pub read-carried :
        (more : List ℕ)
        → read env (record r { rest = (encode env m w).buffer ++ more })
          ≡ (some carried.x, record carried.r' { rest = more })
    unfolding read
    read-carried more =
        let (k, e) =
          enough_rounds (length ((encode env m w).buffer ++ more))
            (omega (arith, carried.nonempty, length-append (encode env m w).buffer more)) in
        rw e (carried.steps k more)

    -- Of the bytes that a synchronised encoder writes for a message, whatever follows them, the decoder
    -- makes a message of the same type, category and body, at the same second, consumes exactly those
    -- bytes, and is synchronised with the encoder again. The message is not fatal; it comes less than 0xffff
    -- seconds after the one before or, where none came before, before second 2^32 and not at 0xffff; its
    -- body and category are shorter than 2^32 bytes, and there is room for the number of its category.
    pub read-encode :
        (more : List ℕ)
        → (x : LogMessage Time) × ((r' : LogReader env) × ((read env
                  (record r { rest = (encode env m w).buffer ++ more })
                ≡ (some x, record r' { rest = more }))
              × ((key x ≡ key m)
                  × ((x.time ≡ env.from_secs (pos t)) × Sync (emptied (encode env m w)) r' t))))
    read-encode more = (
      carried.x,
      (carried.r', (read-carried more, (carried.same_key, (carried.x_time, carried.synced)))),
    )
