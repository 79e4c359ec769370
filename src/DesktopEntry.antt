-- ===== src/DesktopEntry.antt =====
-- The parser of desktop entries of core/desktopentry.cpp: locales, groups of keys, and the command line
-- of `Exec`. Texts are lists of code points.
pub mod Locales
pub mod Exec
pub mod Quoting
pub mod Choice
use mcs_qs.DesktopEntry.Locales.{Locale, no_locale, sliced, parse_locale, stays}
use mcs_qs.DesktopEntry.Exec.{parse_exec_string}
use mcs_qs.Log.{same_bytes}
use mcs_qs.Rules.{starts_with}
use Prim.Native.String.{String}
use mcs_qs.Texts.{codes, is_empty, index_of_char, split, lookup, insert}
use mcs_qs.Prelude.{
  ℕ, zero, suc, ◌+◌, ◌-◌, Bool, true, false, ◌&&◌, ◌||◌, not, Option, none, some, List, [], ◌∷◌,
  ◌++◌, length, take, drop, ltb, ◌==◌, if◌then◌else◌,
}

pub record DesktopActionData : Type 0 where
  pub id : List ℕ
  pub name : List ℕ
  pub icon : List ℕ
  pub exec_string : List ℕ
  pub command : List (List ℕ)
  pub entries : List (List ℕ × List ℕ)

pub record ParsedDesktopEntryData : Type 0 where
  pub id : List ℕ
  pub name : List ℕ
  pub generic_name : List ℕ
  pub startup_class : List ℕ
  pub no_display : Bool
  pub hidden : Bool
  pub comment : List ℕ
  pub icon : List ℕ
  pub exec_string : List ℕ
  pub command : List (List ℕ)
  pub working_directory : List ℕ
  pub terminal : Bool
  pub categories : List (List ℕ)
  pub keywords : List (List ℕ)
  pub entries : List (List ℕ × List ℕ)
  pub actions : List DesktopActionData

-- What `parseText` holds while it reads: the entries of the group, with their locales.
pub record Parser : Type 0 where
  pub parsed : ParsedDesktopEntryData
  pub group_name : List ℕ
  pub entries : List (List ℕ × (Locale × List ℕ))
  pub action_order : List (List ℕ)
  pub pending_actions : List (List ℕ × DesktopActionData)

abbrev is_key : List ℕ → String → Bool
is_key key s = same_bytes key (codes s)

-- What a key sets of the main group.
unfoldable pub set_field : List ℕ → List ℕ → ParsedDesktopEntryData → ParsedDesktopEntryData
set_field key value d =
    if is_key key "Name"
    then record d { name = value }
    else if is_key key "GenericName"
    then record d { generic_name = value }
    else if is_key key "StartupWMClass"
    then record d { startup_class = value }
    else if is_key key "NoDisplay"
    then record d { no_display = is_key value "true" }
    else if is_key key "Hidden"
    then record d { hidden = is_key value "true" }
    else if is_key key "Comment"
    then record d { comment = value }
    else if is_key key "Icon"
    then record d { icon = value }
    else if is_key key "Exec"
    then record d { exec_string = value; command = parse_exec_string value }
    else if is_key key "Path"
    then record d { working_directory = value }
    else if is_key key "Terminal"
    then record d { terminal = is_key value "true" }
    else if is_key key "Categories"
    then record d { categories = split b';' value }
    else if is_key key "Keywords"
    then record d { keywords = split b';' value }
    else d

-- The loop over the main group's entries. `Actions` sets the order of the actions.
unfoldable pub finish_entry : List (List ℕ × (Locale × List ℕ)) → Parser → Parser
finish_entry [] p = p
finish_entry ((key, (locale, value)) ∷ es) p = finish_entry es (record p {
  parsed = set_field key value (record p.parsed { entries = insert key value p.parsed.entries });
  action_order = if is_key key "Actions" then split b';' value else p.action_order;
})

unfoldable pub finish_action :
    List (List ℕ × (Locale × List ℕ)) → DesktopActionData → DesktopActionData
finish_action [] a = a
finish_action ((key, (locale, value)) ∷ es) a =
    let b = record a { entries = insert key value a.entries } in
    finish_action es (
      if is_key key "Name"
      then record b { name = value }
      else if is_key key "Icon"
      then record b { icon = value }
      else if is_key key "Exec"
      then record b { exec_string = value; command = parse_exec_string value }
      else b)

abbrev value_of : Option (Locale × List ℕ) → List ℕ
value_of none = []
value_of (some (locale, value)) = value

abbrev no_action : List ℕ → DesktopActionData
no_action name = record {
  id = name;
  name = [];
  icon = [];
  exec_string = [];
  command = [];
  entries = [];
}

abbrev add_action : List ℕ → Parser → Parser
add_action name p = record p {
  pending_actions = insert name (finish_action p.entries (no_action name)) p.pending_actions;
  entries = [];
}

-- `finishCategory`. A main group that is no application is left as it is, its entries included.
unfoldable pub finish_category : Parser → Parser
finish_category p =
    if is_key p.group_name "Desktop Entry"
    then if not (is_key (value_of (lookup (codes "Type") p.entries)) "Application")
      then p
      else record (finish_entry p.entries p) { entries = [] }
    else if starts_with (codes "Desktop Action ") p.group_name
    then add_action (drop 15 p.group_name) p
    else record p { entries = [] }

-- The key and the locale of what stands before the `=`.
abbrev split_key : Option ℕ → List ℕ → List ℕ × Locale
split_key none key = (key, no_locale)
split_key (some i) key =
    if i == length key - 1
    then (key, no_locale)
    else (take i key, parse_locale (sliced (i + 1) (length key - i - 2) key))

abbrev split_at_equals : Option ℕ → List ℕ → Option (List ℕ × (Locale × List ℕ))
split_at_equals none line = none
split_at_equals (some i) line =
    let key = take i line in
    let (name, locale) = split_key (index_of_char b'[' key) key in
    some (name, (locale, drop (i + 1) line))

-- A line as a key, a locale and a value; `none` if it has no `=`.
unfoldable pub split_line : List ℕ → Option (List ℕ × (Locale × List ℕ))
split_line line = split_at_equals (index_of_char b'=' line) line

unfoldable pub put_entry :
    Locale
    → Option (List ℕ × (Locale × List ℕ))
    → List (List ℕ × (Locale × List ℕ))
    → List (List ℕ × (Locale × List ℕ))
put_entry system none entries = entries
put_entry system (some (key, new)) entries =
    insert key (stays system (lookup key entries) new) entries

abbrev pub ends_with : ℕ → List ℕ → Bool
ends_with c xs = same_bytes (drop (length xs - 1) xs) (c ∷ [])

unfoldable pub parse_line : Locale → List ℕ → Parser → Parser
parse_line system line p =
    if starts_with (b'#' ∷ []) line
    then p
    else if starts_with (b'[' ∷ []) line && ends_with b']' line
    then record (finish_category p) { group_name = sliced 1 (length line - 2) line }
    else record p { entries = put_entry system (split_line line) p.entries }

unfoldable pub parse_lines : Locale → List (List ℕ) → Parser → Parser
parse_lines system [] p = p
parse_lines system (line ∷ lines) p = parse_lines system lines (parse_line system line p)

abbrev or_skip : Option DesktopActionData → List DesktopActionData → List DesktopActionData
or_skip none rest = rest
or_skip (some a) rest = a ∷ rest

unfoldable pub ordered_actions :
    List (List ℕ) → List (List ℕ × DesktopActionData) → List DesktopActionData
ordered_actions [] pending = []
ordered_actions (id ∷ ids) pending = or_skip (lookup id pending) (ordered_actions ids pending)

abbrev pub no_data : List ℕ → ParsedDesktopEntryData
no_data id = record {
  id = id;
  name = [];
  generic_name = [];
  startup_class = [];
  no_display = false;
  hidden = false;
  comment = [];
  icon = [];
  exec_string = [];
  command = [];
  working_directory = [];
  terminal = false;
  categories = [];
  keywords = [];
  entries = [];
  actions = [];
}

unfoldable pub parse_text : Locale → List ℕ → List ℕ → ParsedDesktopEntryData
parse_text system id text =
    let p = finish_category (
      parse_lines system (split b'\n' text) (record {
        parsed = no_data id;
        group_name = [];
        entries = [];
        action_order = [];
        pending_actions = [];
      })) in
    record p.parsed { actions = ordered_actions p.action_order p.pending_actions }
