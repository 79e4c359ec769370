-- ===== src/Log/Tail.antt =====
-- `LogReader::continueReading` of core/logging.cpp: the messages of a log that a filter shows, all of them or the
-- last ones. What is printed is a list; the file's lock and its follower are left out.
use mcs_qs.Prelude.{
  ℕ, zero, suc, Bool, true, false, Option, none, some, List, [], ◌∷◌, ◌++◌, length, ◌==◌,
  if◌then◌else◌,
}
use mcs_qs.Ring.{Ring, empty_ring, at, emplace}
use mcs_qs.Rules.{LoggingRule, should_display, apply_rules}
use mcs_qs.Log.{Env, LogMessage, CategoryFilter}
use mcs_qs.Log.Reader.{LogReader, read, category_filter_by_id}

-- QHash::contains and QHash::value
unfoldable pub filter_of_id : ℕ → List (ℕ × CategoryFilter) → Option CategoryFilter
filter_of_id id [] = none
filter_of_id id ((i, f) ∷ fs) = let rest = filter_of_id id fs in if id == i then some f else rest

module _ (env : Env) where
  open env use {Time}

  -- With the messages printed, and the ring of a tail.
  pub record Follower : Type 0 where
    pub reader : LogReader env
    pub filters : List (ℕ × CategoryFilter)
    pub printed : List (LogMessage Time)
    pub tail_ring : Ring (LogMessage Time)

module _ (env : Env) (remaining_tail : ℕ) (rules : List LoggingRule) where
  open env use {Time}

  abbrev print : LogMessage Time → Follower env → Follower env
  print m s = record s { printed = s.printed ++ m ∷ [] }

  -- A message that the filter shows, or not.
  unfoldable pub show_if : Bool → LogMessage Time → Follower env → Follower env
  show_if false m s = s
  show_if true m s =
      if remaining_tail == 0 then print m s else record s { tail_ring = emplace m s.tail_ring }

  -- The filter of a category, made when its first message comes.
  abbrev pub with_filter : LogMessage Time → Follower env → Option CategoryFilter → Follower env
  with_filter m s (some f) = show_if (should_display f m.type) m s
  with_filter m s none =
      let f =
        apply_rules m.category rules (category_filter_by_id env m.read_category_id s.reader) in
      show_if (should_display f m.type) m
        (record s { filters = (m.read_category_id, f) ∷ s.filters })

  abbrev pub shown : LogMessage Time → Follower env → Follower env
  shown m s = with_filter m s (filter_of_id m.read_category_id s.filters)

  -- The loop, on fuel, and whether it stopped where a message ends.
  unfoldable pub follow : ℕ → Follower env → Option (Follower env × Bool)
  follow zero s = none
  follow (suc fuel) s =
      let (o, r) = read env s.reader in
      elim o [
        | none ↦ some (record s { reader = r }, length r.rest == length s.reader.rest)
        | some m ↦ follow fuel (shown m (record s { reader = r }))
      ]

  abbrev pub or_nothing : Option (LogMessage Time) → List (LogMessage Time)
  or_nothing none = []
  or_nothing (some m) = m ∷ []

  -- From the oldest element of the ring to the newest.
  unfoldable pub tail_items : ℕ → Ring (LogMessage Time) → List (LogMessage Time)
  tail_items zero r = []
  tail_items (suc i) r = or_nothing (at r i) ++ tail_items i r

  abbrev pub print_tail : Option (Follower env × Bool) → Option (Follower env × Bool)
  print_tail none = none
  print_tail (some (s, ok)) = some (
    record s {
      printed =
          s.printed
          ++ (if remaining_tail == 0 then [] else tail_items s.tail_ring.size s.tail_ring);
    },
    ok,
  )

  -- Each message takes a byte at least, so this fuel is enough.
  unfoldable pub continue_reading : Follower env → Option (Follower env × Bool)
  continue_reading s =
      print_tail
        (follow (suc (length s.reader.rest)) (record s { tail_ring = empty_ring remaining_tail }))
