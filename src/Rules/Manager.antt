-- ===== src/Rules/Manager.antt =====
-- `LogManager::filterCategory` of core/logging.cpp: the filter that a new category gets.
use mcs_qs.Prelude.{
  ℕ, ◌≡◌, ◌≢◌, refl, arith, Bool, true, not, ◌&&◌, ◌||◌, Option, none, some, List, [], ◌∷◌, leb,
  if◌then◌else◌,
}
use mcs_qs.Prelude.Int.{pos}
use mcs_qs.Log.{
  MsgType, debug_msg, info_msg, warning_msg, critical_msg, fatal_msg, same_type, same_bytes,
  CategoryFilter, default_filter,
}
use mcs_qs.Rules.{LoggingRule, starts_with, should_display, decide, apply_rules}
use mcs_qs.Rules.Find.{same_bytes_refl}
use mcs_qs.Rules.Filter.{last_verdict, apply_rules_lem}

-- A QLoggingCategory: its name, where the name stands, and the types that are enabled.
pub record Category : Type 0 where
  pub name : List ℕ
  pub address : ℕ
  pub enabled : CategoryFilter

-- The filter that was installed before is a function of a category.
pub record LogManager : Type 0 where
  pub sparse : Bool
  pub default_level : MsgType
  pub default_levels : List (List ℕ × MsgType)
  pub rules : List LoggingRule
  pub last_category_filter : Option (Category → Category)
  pub sparse_filters : List (ℕ × CategoryFilter)
  pub all_filters : List (List ℕ × CategoryFilter)

-- "quickshell."
abbrev quickshell : List ℕ
quickshell = 113 ∷ 117 ∷ 105 ∷ 99 ∷ 107 ∷ 115 ∷ 104 ∷ 101 ∷ 108 ∷ 108 ∷ 46 ∷ []

abbrev pub is_qs : Category → Bool
is_qs c = starts_with quickshell c.name

-- QHash::value; the default of a QtMsgType is QtDebugMsg, which is 0.
unfoldable pub level_of : List ℕ → List (List ℕ × MsgType) → MsgType
level_of name [] = debug_msg
level_of name ((n, t) ∷ ls) = if same_bytes name n then t else level_of name ls

unfoldable pub filter_value : List ℕ → List (List ℕ × CategoryFilter) → CategoryFilter
filter_value name [] = default_filter
filter_value name ((n, f) ∷ fs) = if same_bytes name n then f else filter_value name fs

-- The filter of a category of the shell, by the two levels.
unfoldable pub level_filter : MsgType → MsgType → CategoryFilter
level_filter all own =
    let debug = same_type all debug_msg || same_type own debug_msg in
    let info = debug || (same_type all info_msg || same_type own info_msg) in
    let warn = info || (same_type all warning_msg || same_type own warning_msg) in
    let critical = warn || (same_type all critical_msg || same_type own critical_msg) in
    record { debug = debug; info = info; warn = warn; critical = critical }

abbrev filtered : Option (Category → Category) → Category → Category
filtered none c = c
filtered (some f) c = f c

abbrev other_filter : Option (Category → Category) → Category → CategoryFilter
other_filter none c = default_filter
other_filter (some f) c = (f c).enabled

-- The filter before the rules.
unfoldable pub base_filter : LogManager → Category → CategoryFilter
base_filter m c =
    if is_qs c
    then level_filter m.default_level (level_of c.name m.default_levels)
    else other_filter m.last_category_filter c

-- The category and the manager after the call. A category of the shell is not passed to the filter that
-- was installed before.
unfoldable pub filter_category : Category → LogManager → Category × LogManager
filter_category c m =
    let filter = apply_rules c.name m.rules (base_filter m c) in
    let seen = if is_qs c then c else filtered m.last_category_filter c in
    let spares = is_qs c && not m.sparse in
    (
      record seen { enabled = if spares then default_filter else filter },
      record m {
        sparse_filters =
            if spares then (c.address, filter) ∷ m.sparse_filters else m.sparse_filters;
        all_filters = (c.name, filter) ∷ m.all_filters;
      },
    )

unfoldable pub get_filter : List ℕ → LogManager → CategoryFilter
get_filter name m = filter_value name m.all_filters

-- How severe a type is.
unfoldable pub severity : MsgType → ℕ
severity debug_msg = 0
severity info_msg = 1
severity warning_msg = 2
severity critical_msg = 3
severity fatal_msg = 4

level_filter_lem :
    (all own t : MsgType)
    → t ≢ fatal_msg
    → should_display (level_filter all own) t
      ≡ (leb (severity all) (severity t) || leb (severity own) (severity t))
unfolding level_filter should_display same_type severity
level_filter_lem all own debug_msg h = ground arith
level_filter_lem all own info_msg h = ground arith
level_filter_lem all own warning_msg h = ground arith
level_filter_lem all own critical_msg h = ground arith
level_filter_lem all own fatal_msg h = absurd (h refl)

-- The filter that is kept for a category of the shell shows a type that is not fatal if the last rule
-- about the two says so, and, where no rule does, exactly if the type is at least as severe as the
-- default level or the category's own.
pub get_filter-filter_category :
    (c : Category) (m : LogManager) (t : MsgType)
    → is_qs c ≡ true
    → t ≢ fatal_msg
    → should_display (get_filter c.name (filter_category c m).1) t
      ≡ decide (last_verdict m.rules c.name t (pos 0)) (
          leb (severity m.default_level) (severity t)
          || leb (severity (level_of c.name m.default_levels)) (severity t))
unfolding get_filter filter_category filter_value base_filter
get_filter-filter_category c m t q h =
    rw
      (
        same_bytes_refl c.name,
        q,
        apply_rules_lem m.rules c.name t
            (level_filter m.default_level (level_of c.name m.default_levels)) h,
        level_filter_lem m.default_level (level_of c.name m.default_levels) t h,
      )
      refl
