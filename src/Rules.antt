-- ===== src/Rules.antt =====
-- Logging rules and category filters (core/logging_qtprivate.cpp, core/logging.cpp). A string is the
-- list of its characters' codes; `is_space` is Qt's test for white space.
pub mod Find
pub mod Pass
pub mod Filter
pub mod Manager
use mcs_qs.Prelude.{
  ℕ, zero, suc, ◌+◌, ◌-◌, ◌≡◌, Bool, true, false, ◌&&◌, ◌||◌, not, Option, none, some, List, [],
  ◌∷◌, ◌++◌, length, take, drop, ltb, ◌==◌, if◌then◌else◌, bit_or,
}
use mcs_qs.Prelude.Int.{ℤ, pos, negsuc, ◌-ℤ◌, ltb_ℤ, eqb_ℤ}
use mcs_qs.Log.{
  MsgType, debug_msg, info_msg, warning_msg, critical_msg, fatal_msg, same_type, same_bytes,
  CategoryFilter, default_filter,
}

unfoldable pub starts_with : List ℕ → List ℕ → Bool
starts_with [] xs = true
starts_with (p ∷ ps) [] = false
starts_with (p ∷ ps) (x ∷ xs) = p == x && starts_with ps xs

-- `indexOf` of a string, here `find_string p xs`: where `p` first stands in `xs`.
abbrev next : Option ℕ → Option ℕ
next none = none
next (some i) = some (suc i)

unfoldable pub find_string : List ℕ → List ℕ → Option ℕ
find_string p [] = if starts_with p [] then some 0 else none
find_string p (x ∷ xs) =
    let rest = find_string p xs in if starts_with p (x ∷ xs) then some 0 else next rest

unfoldable pub ends_with : List ℕ → List ℕ → Bool
ends_with p xs = not (ltb (length xs) (length p)) && same_bytes (drop (length xs - length p) xs) p

unfoldable pub contains : ℕ → List ℕ → Bool
contains c [] = false
contains c (x ∷ xs) = let rest = contains c xs in c == x || rest

abbrev pub chopped : ℕ → List ℕ → List ℕ
chopped n xs = take (length xs - n) xs

-- `QLoggingRule::PatternFlag`, by value.
abbrev pub full_text : ℕ
full_text = 1

abbrev pub left_filter : ℕ
left_filter = 2

abbrev pub right_filter : ℕ
right_filter = 4

abbrev pub mid_filter : ℕ
mid_filter = 6

pub record LoggingRule : Type 0 where
  pub category : List ℕ
  -- `none` is -1
  pub message_type : Option MsgType
  pub flags : ℕ
  pub enabled : Bool

abbrev pub asterisk : ℕ
asterisk = 42

abbrev dot_debug : List ℕ
dot_debug = 46 ∷ 100 ∷ 101 ∷ 98 ∷ 117 ∷ 103 ∷ []

abbrev dot_info : List ℕ
dot_info = 46 ∷ 105 ∷ 110 ∷ 102 ∷ 111 ∷ []

abbrev dot_warning : List ℕ
dot_warning = 46 ∷ 119 ∷ 97 ∷ 114 ∷ 110 ∷ 105 ∷ 110 ∷ 103 ∷ []

abbrev dot_critical : List ℕ
dot_critical = 46 ∷ 99 ∷ 114 ∷ 105 ∷ 116 ∷ 105 ∷ 99 ∷ 97 ∷ 108 ∷ []

-- The pattern without its message type, and the message type.
unfoldable pub split_type : List ℕ → List ℕ × Option MsgType
split_type pattern =
    if ends_with dot_debug pattern
    then (chopped 6 pattern, some debug_msg)
    else if ends_with dot_info pattern
    then (chopped 5 pattern, some info_msg)
    else if ends_with dot_warning pattern
    then (chopped 8 pattern, some warning_msg)
    else if ends_with dot_critical pattern
    then (chopped 9 pattern, some critical_msg)
    else (pattern, none)

-- The asterisk at the end, and then the one at the start, each with its flag.
abbrev pub strip_end : List ℕ → ℕ × List ℕ
strip_end p = if ends_with (asterisk ∷ []) p then (left_filter, chopped 1 p) else (0, p)

abbrev pub strip_start : ℕ × List ℕ → ℕ × List ℕ
strip_start (f, p) =
    if starts_with (asterisk ∷ []) p then (bit_or f right_filter, drop 1 p) else (f, p)

abbrev pub check_stars : ℕ × List ℕ → ℕ × List ℕ
check_stars (f, p) = (if contains asterisk p then 0 else f, p)

-- The flags and the category that the asterisks leave; flags start as 0.
unfoldable pub split_stars : List ℕ → ℕ × List ℕ
split_stars p =
    if contains asterisk p then check_stars (strip_start (strip_end p)) else (full_text, p)

unfoldable pub parse : List ℕ → Bool → LoggingRule
parse pattern enabled =
    let (p, type) = split_type pattern in
    let (flags, category) = split_stars p in
    record { category = category; message_type = type; flags = flags; enabled = enabled }

abbrev pub verdict : Bool → ℤ
verdict true = pos 1
verdict false = negsuc 0

-- Whether the first place of the category in `cat` is one that the flags ask for.
abbrev pub place_passes : LoggingRule → List ℕ → Option ℕ → Bool
place_passes rule cat none = false
place_passes rule cat (some i) =
    if rule.flags == mid_filter
    then true
    else if rule.flags == left_filter
    then i == 0
    else if rule.flags == right_filter
    then eqb_ℤ (pos i) (pos (length cat) -ℤ pos (length rule.category))
    else false

abbrev pub is_for : Option MsgType → MsgType → Bool
is_for none type = true
is_for (some t) type = same_type t type

unfoldable pub pass : LoggingRule → List ℕ → MsgType → ℤ
pass rule cat type =
    if is_for rule.message_type type
    then if rule.flags == full_text
      then if same_bytes rule.category cat then verdict rule.enabled else pos 0
      else if place_passes rule cat (find_string rule.category cat)
      then verdict rule.enabled
      else pos 0
    else pos 0

unfoldable pub should_display : CategoryFilter → MsgType → Bool
should_display f debug_msg = f.debug
should_display f info_msg = f.info
should_display f warning_msg = f.warn
should_display f critical_msg = f.critical
should_display f fatal_msg = true

abbrev pub decide : ℤ → Bool → Bool
decide p old = if eqb_ℤ p (pos 0) then old else ltb_ℤ (pos 0) p

unfoldable pub apply_rule : List ℕ → LoggingRule → CategoryFilter → CategoryFilter
apply_rule category rule f = record {
  debug = decide (pass rule category debug_msg) f.debug;
  info = decide (pass rule category info_msg) f.info;
  warn = decide (pass rule category warning_msg) f.warn;
  critical = decide (pass rule category critical_msg) f.critical;
}

-- The loops `for (const auto& rule: rules) filter.applyRule(category, rule)`.
unfoldable pub apply_rules : List ℕ → List LoggingRule → CategoryFilter → CategoryFilter
apply_rules category [] f = f
apply_rules category (r ∷ rs) f = apply_rules category rs (apply_rule category r f)

-- QStringView::indexOf of a character.
unfoldable pub find_char : ℕ → List ℕ → Option ℕ
find_char c [] = none
find_char c (x ∷ xs) = let rest = find_char c xs in if c == x then some 0 else next rest

-- qTokenize: the parts between the separators.
abbrev cons_part : ℕ → List (List ℕ) → List (List ℕ)
cons_part x [] = (x ∷ []) ∷ []
cons_part x (p ∷ ps) = (x ∷ p) ∷ ps

unfoldable pub tokenize : ℕ → List ℕ → List (List ℕ)
tokenize c [] = [] ∷ []
tokenize c (x ∷ xs) = let rest = tokenize c xs in if c == x then [] ∷ rest else cons_part x rest

abbrev equals_sign : ℕ
equals_sign = 61

abbrev text_true : List ℕ
text_true = 116 ∷ 114 ∷ 117 ∷ 101 ∷ []

abbrev text_false : List ℕ
text_false = 102 ∷ 97 ∷ 108 ∷ 115 ∷ 101 ∷ []

abbrev add_rule : LoggingRule → Bool → List LoggingRule → List LoggingRule
add_rule rule known rules = if not (rule.flags == 0) && known then rules ++ rule ∷ [] else rules

module _ (is_space : ℕ → Bool) where
  unfoldable pub trim_left : List ℕ → List ℕ
  trim_left [] = []
  trim_left (x ∷ xs) = let rest = trim_left xs in if is_space x then rest else x ∷ xs

  abbrev drop_if_blank : ℕ → List ℕ → List ℕ
  drop_if_blank x [] = if is_space x then [] else x ∷ []
  drop_if_blank x (y ∷ ys) = x ∷ y ∷ ys

  unfoldable pub trim_right : List ℕ → List ℕ
  trim_right [] = []
  trim_right (x ∷ xs) = drop_if_blank x (trim_right xs)

  abbrev pub trimmed : List ℕ → List ℕ
  trimmed xs = trim_right (trim_left xs)

  -- A line without an `=`, or with a second one, adds no rule.
  abbrev parse_at : Option ℕ → List ℕ → List LoggingRule → List LoggingRule
  parse_at none line rules = rules
  parse_at (some i) line rules =
      let value = trimmed (drop (suc i) line) in
      if contains equals_sign (drop (suc i) line)
      then rules
      else add_rule (parse (trimmed (take i line)) (same_bytes value text_true))
          (same_bytes value text_true || same_bytes value text_false) rules

  unfoldable pub parse_next_line : List ℕ → List LoggingRule → List LoggingRule
  parse_next_line line rules = parse_at (find_char equals_sign (trimmed line)) (trimmed line) rules

  unfoldable pub parse_lines : List (List ℕ) → List LoggingRule → List LoggingRule
  parse_lines [] rules = rules
  parse_lines (l ∷ ls) rules = parse_lines ls (parse_next_line l rules)

  -- `setContent`; the rules of an earlier content go.
  unfoldable pub set_content : List ℕ → List LoggingRule
  set_content content = parse_lines (tokenize 59 content) []
