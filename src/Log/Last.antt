-- ===== src/Log/Last.antt =====
-- A log's tail is the end of the log.
use mcs_qs.Prelude.{
  ℕ, zero, suc, ◌≤◌, ◌<◌, ◌≡◌, ◌⊎◌, refl, arith, Bool, true, false, Option, none, some, List, [],
  ◌∷◌, ◌++◌, length, take, ◌==◌, if◌then◌else◌, ap, sym, ◌∙◌, subst, inl, inr,
}
use mathlib.Core.List.{append_assoc, append-nil}
use mcs_qs.Ring.{Ring, empty_ring, emplace}
use mcs_qs.Ring.Refine.{Holds, empty_ring-Holds, emplace-Holds}
use mcs_qs.Rules.{LoggingRule, should_display, apply_rules}
use mcs_qs.Log.{Env, LogMessage, CategoryFilter}
use mcs_qs.Log.Reader.{LogReader, read, category_filter_by_id}
use mcs_qs.Log.Back.{back, last_of, back-take, back-get, take_again, get_elem?-some}
use mcs_qs.Log.Rounds.{read_takes}
use mcs_qs.Log.Tail.{
  Follower, filter_of_id, show_if, shown, with_filter, follow, tail_items, or_nothing, print_tail,
  continue_reading,
}

module _ (env : Env) (n : ℕ) (rules : List LoggingRule) (positive : 0 < n) where
  open env use {Time}

  -- The ring is printed from its oldest element on.
  tail_items_lem :
      (i : ℕ) (r : Ring (LogMessage Time)) (xs : List (LogMessage Time))
      → Holds r xs
      → i ≤ r.size
      → tail_items env n rules i r ≡ back (take i xs)
  unfolding tail_items
  tail_items_lem zero r xs v h = refl
  tail_items_lem (suc i) r xs v h =
      let (y, e) = get_elem?-some i xs (omega (arith, h, v.counted)) in
      ap (λ o. or_nothing env n rules o ++ tail_items env n rules i r) (v.items i (omega arith) ∙ e)
      ∙ ap (λ ys. y ∷ ys) (tail_items_lem i r xs v (omega arith))
      ∙ sym (back-get i xs y e)

  -- A reader that prints all, and one that keeps a tail: `ws` are the messages shown, the newest first.
  abbrev whole :
      List (LogMessage Time)
      → LogReader env
      → List (ℕ × CategoryFilter)
      → List (LogMessage Time)
      → Ring (LogMessage Time)
      → Follower env
  whole p r fs ws g = record { reader = r; filters = fs; printed = p ++ back ws; tail_ring = g }

  abbrev tailed :
      List (LogMessage Time)
      → LogReader env
      → List (ℕ × CategoryFilter)
      → Ring (LogMessage Time)
      → Follower env
  tailed p r fs g = record { reader = r; filters = fs; printed = p; tail_ring = g }

  record Keeps (g : Ring (LogMessage Time)) (ws : List (LogMessage Time)) : Type 0 where
    holds : Holds g (take n ws)
    capacity : g.capacity ≡ n

  capacity-emplace :
      (m : LogMessage Time) (g : Ring (LogMessage Time)) → (emplace m g).capacity ≡ g.capacity
  unfolding emplace
  capacity-emplace m g = refl

  module _ (p : List (LogMessage Time)) (unused : Ring (LogMessage Time)) where
    -- The two are at the same place.
    record Together (r : LogReader env) (s t : Follower env) : Type 0 where
      filters : List (ℕ × CategoryFilter)
      ws : List (LogMessage Time)
      ring : Ring (LogMessage Time)
      is_whole : s ≡ whole p r filters ws unused
      is_tailed : t ≡ tailed p r filters ring
      keeps : Keeps ring ws

    show_if-Together :
        (b : Bool) (m : LogMessage Time) (r : LogReader env) (fs : List (ℕ × CategoryFilter))
        (ws : List (LogMessage Time)) (g : Ring (LogMessage Time))
        → Keeps g ws
        → Together r
            (show_if env 0 rules b m (whole p r fs ws unused))
            (show_if env n rules b m (tailed p r fs g))
    unfolding show_if
    show_if-Together false m r fs ws g k = record {
      filters = fs;
      ws = ws;
      ring = g;
      is_whole = refl;
      is_tailed = refl;
      keeps = k;
    }
    show_if-Together true m r fs ws g k =
        let some_tail : (n == 0) ≡ false = ground arith in
        record {
          filters = fs;
          ws = m ∷ ws;
          ring = emplace m g;
          is_whole =
              ap (λ ys. record { reader = r; filters = fs; printed = ys; tail_ring = unused })
                (append_assoc p (back ws) (m ∷ []));
          is_tailed = rw some_tail refl;
          keeps = record {
            holds =
                subst (Holds (emplace m g))
                  (ap (λ c. take c (m ∷ take n ws)) k.capacity ∙ take_again n m ws)
                  (emplace-Holds m k.holds);
            capacity = capacity-emplace m g ∙ k.capacity;
          };
        }

    with_filter-Together :
        (o : Option CategoryFilter) (m : LogMessage Time) (r : LogReader env)
        (fs : List (ℕ × CategoryFilter)) (ws : List (LogMessage Time)) (g : Ring (LogMessage Time))
        → Keeps g ws
        → Together r
            (with_filter env 0 rules m (whole p r fs ws unused) o)
            (with_filter env n rules m (tailed p r fs g) o)
    with_filter-Together (some f) m r fs ws g k =
        show_if-Together (should_display f m.type) m r fs ws g k
    with_filter-Together none m r fs ws g k =
        let f = apply_rules m.category rules (category_filter_by_id env m.read_category_id r) in
        show_if-Together (should_display f m.type) m r ((m.read_category_id, f) ∷ fs) ws g k

    -- Both loops end, at the same place.
    record Ends (a b : Option (Follower env × Bool)) : Type 0 where
      s : Follower env
      t : Follower env
      ok : Bool
      full : a ≡ some (s, ok)
      short : b ≡ some (t, ok)
      together : Together s.reader s t

    follow-Ends :
        (fuel : ℕ) (r : LogReader env) (fs : List (ℕ × CategoryFilter))
        (ws : List (LogMessage Time)) (g : Ring (LogMessage Time))
        → length r.rest < fuel
        → Keeps g ws
        → Ends
            (follow env 0 rules fuel (whole p r fs ws unused))
            (follow env n rules fuel (tailed p r fs g))
    unfolding follow
    follow-Ends zero r fs ws g h k = absurd (omega arith)
    follow-Ends (suc fuel) r fs ws g h k =
        go (follow-Ends fuel) (read env r).0 (read env r).1 (read_takes env r)
      where
        go :
            ((r : LogReader env) (fs : List (ℕ × CategoryFilter)) (ws : List (LogMessage Time))
                (g : Ring (LogMessage Time))
              → length r.rest < fuel
              → Keeps g ws
              → Ends
                  (follow env 0 rules fuel (whole p r fs ws unused))
                  (follow env n rules fuel (tailed p r fs g)))
            → (o : Option (LogMessage Time)) (r' : LogReader env)
            → (o ≡ none) ⊎ (length r'.rest < length r.rest)
            → Ends
                (elim o as (λ _. Option (Follower env × Bool)) [
                  | none ↦ some (whole p r' fs ws unused, length r'.rest == length r.rest)
                  | some m ↦ follow env 0 rules fuel (shown env 0 rules m (whole p r' fs ws unused))
                ])
                (elim o as (λ _. Option (Follower env × Bool)) [
                  | none ↦ some (tailed p r' fs g, length r'.rest == length r.rest)
                  | some m ↦ follow env n rules fuel (shown env n rules m (tailed p r' fs g))
                ])
        go ih none r' t = record {
          s = whole p r' fs ws unused;
          t = tailed p r' fs g;
          ok = length r'.rest == length r.rest;
          full = refl;
          short = refl;
          together = record {
            filters = fs;
            ws = ws;
            ring = g;
            is_whole = refl;
            is_tailed = refl;
            keeps = k;
          };
        }
        go ih (some m) r' (inl e) = absurd (ground arith)
        go ih (some m) r' (inr lt) =
            let q = with_filter-Together (filter_of_id m.read_category_id fs) m r' fs ws g k in
            let e = ih r' q.filters q.ws q.ring (omega (arith, lt, h)) q.keeps in
            record {
              s = e.s;
              t = e.t;
              ok = e.ok;
              full = ap (follow env 0 rules fuel) q.is_whole ∙ e.full;
              short = ap (follow env n rules fuel) q.is_tailed ∙ e.short;
              together = e.together;
            }

  take_whole : {A : Type 0} (k : ℕ) (xs : List A) → k ≡ length xs → take k xs ≡ xs
  take_whole zero [] e = refl
  take_whole zero (x ∷ xs) e = absurd (omega (arith, e))
  take_whole (suc k) [] e = refl
  take_whole (suc k) (x ∷ xs) e = ap (λ ys. x ∷ ys) (take_whole k xs (omega (arith, e)))

  ring_printed :
      (g : Ring (LogMessage Time)) (ws : List (LogMessage Time))
      → Keeps g ws
      → tail_items env n rules g.size g ≡ last_of n (back ws)
  ring_printed g ws k =
      tail_items_lem g.size g (take n ws) k.holds (omega arith)
      ∙ ap back (take_whole g.size (take n ws) k.holds.counted)
      ∙ back-take n ws

  take_nil : (k : ℕ) → take {A = LogMessage Time} k [] ≡ []
  take_nil zero = refl
  take_nil (suc k) = refl

  start-Keeps : Keeps (empty_ring n) []
  unfolding empty_ring
  start-Keeps = record {
    holds = subst (Holds (empty_ring n)) (sym (take_nil n)) (empty_ring-Holds n positive);
    capacity = refl;
  }

  printed_short :
      (p : List (LogMessage Time)) (b : Bool) (xs : List (LogMessage Time))
      → b ≡ false
      → p ++ (if b then [] else xs) ≡ p ++ xs
  printed_short p b xs e = rw e refl

  -- Reading on in a log ends, and with a tail of `n` messages, which is not 0, it prints the last `n` of the
  -- messages that it prints without a tail, in the same order, finds the same error or none and is at the same place
  -- of the file.
  pub continue_reading-last_of :
      (s : Follower env)
      → (all : List (LogMessage Time)) × ((a : Follower env) × ((b : Follower env) × ((ok : Bool)
              × ((continue_reading env 0 rules s ≡ some (a, ok))
                  × ((continue_reading env n rules s ≡ some (b, ok))
                      × ((a.printed ≡ s.printed ++ all)
                          × ((b.printed ≡ s.printed ++ last_of n all) × (a.reader ≡ b.reader))))))))
  unfolding continue_reading
  continue_reading-last_of s =
      let p = s.printed in
      let unused : Ring (LogMessage Time) = empty_ring 0 in
      let fuel = suc (length s.reader.rest) in
      let e =
        follow-Ends p unused fuel s.reader s.filters [] (empty_ring n) (omega arith) start-Keeps in
      let q = e.together in
      let start =
        ap
          (λ ys.
            follow env 0 rules fuel
              (record { reader = s.reader; filters = s.filters; printed = ys; tail_ring = unused }))
          (sym (append-nil p)) in
      let short : (n == 0) ≡ false = ground arith in
      (
        back q.ws,
        (
          record e.s { printed = e.s.printed ++ [] },
          (
            record e.t {
              printed =
                  e.t.printed
                  ++ (if n == 0
                      then []
                      else tail_items env n rules e.t.tail_ring.size e.t.tail_ring);
            },
            (
              e.ok,
              (
                ap (print_tail env 0 rules) (start ∙ e.full),
                (
                  ap (print_tail env n rules) e.short,
                  (
                    append-nil e.s.printed ∙ ap (λ t. t.printed) q.is_whole,
                    (
                      ap
                            (λ t.
                              t.printed
                              ++ (if n == 0
                                  then []
                                  else tail_items env n rules t.tail_ring.size t.tail_ring))
                            q.is_tailed
                          ∙ printed_short p (n == 0) (tail_items env n rules q.ring.size q.ring)
                              short
                          ∙ ap (λ ys. p ++ ys) (ring_printed q.ring q.ws q.keeps),
                      sym (ap (λ t. t.reader) q.is_tailed),
                    ),
                  ),
                ),
              ),
            ),
          ),
        ),
      )
