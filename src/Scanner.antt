-- ===== src/Scanner.antt =====
-- The preprocessor of `QmlScanner::scanQmlFile` of core/scan.cpp: the header of a QML file, and the
-- blocks of lines between `//@ if` and `//@ endif`. The visit of the imported directories is left out.
pub mod Masks
pub mod Nesting
use Prim.Native.String.{String}
use mcs_qs.Log.{same_bytes}
use mcs_qs.Rules.{starts_with, find_string, contains}
use mcs_qs.Texts.{codes, index_of_char}
use mcs_qs.Prelude.{
  ℕ, zero, suc, ◌+◌, ◌-◌, Bool, true, false, ◌&&◌, ◌||◌, not, Option, none, some, List, [], ◌∷◌,
  ◌++◌, length, take, drop, leb, ◌==◌, if◌then◌else◌,
}

-- What an expression evaluates to, with the text of what is not a boolean.
pub data Evaluated : Type 0 where
  is_error : List ℕ → Evaluated
  not_bool : List ℕ → Evaluated
  to_bool : Bool → Evaluated

-- What the scanner takes from Qt: QString::trimmed, the pragma engine, and the path of an import below
-- the root.
pub record ScanEnv : Type 0 where
  pub trimmed : List ℕ → List ℕ
  pub evaluate : List ℕ → Evaluated
  pub file_path : List ℕ → List ℕ

pub data ScanMessage : Type 0 where
  evaluating_if : List ℕ → ScanMessage
  if_not_boolean : List ℕ → ScanMessage
  endif_without_if : ScanMessage
  unclosed_if : ScanMessage

-- The scopes are listed from the last; the override text is listed by lines.
pub record Scan : Type 0 where
  pub singleton : Bool
  pub internal : Bool
  pub imports : List (List ℕ)
  pub in_header : Bool
  pub if_scopes : List Bool
  pub source_masked : Bool
  pub line_num : ℕ
  pub override_text : List (List ℕ)
  pub is_overridden : Bool
  pub scan_errors : List (ScanMessage × ℕ)

abbrev pub post_error : ScanMessage → Scan → Scan
post_error m s = record s { scan_errors = s.scan_errors ++ (m, s.line_num) ∷ [] }

abbrev is_letter : ℕ → Bool
is_letter c =
    (leb b'a' c && leb c b'z')
    || (leb b'A' c && leb c b'Z')
    || (leb b'0' c && leb c b'9')
    || c == b'_'

abbrev cons_path : ℕ → Option (List ℕ) → Option (List ℕ)
cons_path c none = none
cons_path c (some path) = some (c ∷ path)

-- The loop over the module name after `qs.`; `none` on a character that is not allowed.
unfoldable pub qs_path : List ℕ → Option (List ℕ)
qs_path [] = some []
qs_path (c ∷ cs) =
    let rest = qs_path cs in
    if c == b'.'
    then cons_path b'/' rest
    else if c == b' '
    then some []
    else if is_letter c
    then cons_path c rest
    else none

abbrev quoted : Option ℕ → List ℕ → Option (Option (List ℕ))
quoted none rest = none
quoted (some end) rest = some (some (take end rest))

-- The import of a line, if it has one; `none` on a line that is left there and then.
abbrev quoted_import : Option ℕ → List ℕ → Option (Option (List ℕ))
quoted_import none line = some none
quoted_import (some q) line =
    if leb (q + 3) (length line)
    then quoted (index_of_char b'"' (drop (q + 1) line)) (drop (q + 1) line)
    else some none

abbrev qs_import : (List ℕ → List ℕ) → Option (List ℕ) → Option (Option (List ℕ))
qs_import file_path none = none
qs_import file_path (some path) = some (some (file_path path))

abbrev any_import : (List ℕ → List ℕ) → Option ℕ → List ℕ → Option (Option (List ℕ))
any_import file_path (some i) line = qs_import file_path (qs_path (drop (i + 4) line))
any_import file_path none line = quoted_import (index_of_char b'"' line) line

abbrev pub add_import : Option (Option (List ℕ)) → Scan → Option Scan
add_import none s = none
add_import (some none) s = some s
add_import (some (some name)) s = some (record s { imports = s.imports ++ name ∷ [] })

abbrev pub is_line : String → List ℕ → Bool
is_line text line = same_bytes line (codes text)

abbrev pub mask_mark : List ℕ
mask_mark = codes "// MASKED: "

-- The end of the loop's body.
abbrev pub append_line : Bool → List ℕ → Scan → Scan
append_line hide_mask raw s = record s {
  override_text =
      s.override_text ++ (if not hide_mask && s.source_masked then mask_mark ++ raw else raw) ∷ [];
}

abbrev pub top_scope : List Bool → Bool
top_scope [] = false
top_scope (mask ∷ scopes) = mask

unfoldable pub on_endif : List Bool → Scan → Scan
on_endif [] s = post_error endif_without_if s
on_endif (mask ∷ scopes) s = record s { if_scopes = scopes; source_masked = top_scope scopes }

-- A scope opens; `mask` says whether its own condition masks.
unfoldable pub open_scope : Bool → Scan → Scan
open_scope mask s =
    let all = s.source_masked || mask in
    record s {
      if_scopes = all ∷ s.if_scopes;
      is_overridden = s.is_overridden || all;
      source_masked = all;
    }

unfoldable pub own_mask : Evaluated → Bool
own_mask (to_bool b) = not b
own_mask (is_error e) = true
own_mask (not_bool v) = true

unfoldable pub post_value : Evaluated → Scan → Scan
post_value (to_bool b) s = s
post_value (is_error e) s = post_error (evaluating_if e) s
post_value (not_bool v) s = post_error (if_not_boolean v) s

module _ (env : ScanEnv) where
  unfoldable pub import_of : List ℕ → Option (Option (List ℕ))
  import_of line = any_import env.file_path (find_string (codes " qs.") line) line

  -- A line of the header; `none` if the rest of the loop's body is left out.
  unfoldable pub header_line : List ℕ → Scan → Option Scan
  header_line line s =
      if not s.singleton && is_line "pragma Singleton" line
      then some (record s { singleton = true })
      else if starts_with (codes "import") line
      then add_import (import_of line) s
      else if not s.internal && is_line "//@ pragma Internal" line
      then some (record s { internal = true })
      else if contains b'{' line
      then some (record s { in_header = false })
      else some s

  -- The directives of a line, after its header.
  unfoldable pub directive : List ℕ → Scan → Scan × Bool
  directive line s =
      if starts_with (codes "//@ if ") line
      then (let value = env.evaluate (drop 7 line) in
          (open_scope (own_mask value) (post_value value s), not s.source_masked && own_mask value))
      else if starts_with (codes "//@ endif") line
      then (on_endif s.if_scopes s, false)
      else (s, false)

  abbrev pub end_line : List ℕ → Scan × Bool → Scan
  end_line raw (s, hide_mask) = append_line hide_mask raw s

  abbrev pub after_header : List ℕ → List ℕ → Option Scan → Scan → Scan
  after_header raw line none s = s
  after_header raw line (some s') s = end_line raw (directive line s')

  -- The loop's body, for a line as it was read.
  unfoldable pub scan_line : List ℕ → Scan → Scan
  scan_line raw s0 =
      let s = record s0 { line_num = s0.line_num + 1 } in
      let line = env.trimmed raw in
      after_header raw line
        (if not s.source_masked && s.in_header then header_line line s else some s) s

  unfoldable pub scan_lines : List (List ℕ) → Scan → Scan
  scan_lines [] s = s
  scan_lines (raw ∷ lines) s = scan_lines lines (scan_line raw s)

  abbrev pub close_scopes : List Bool → Scan → Scan
  close_scopes [] s = s
  close_scopes (mask ∷ scopes) s = post_error unclosed_if s

  abbrev pub no_scan : Bool → Bool → Scan
  no_scan singleton internal = record {
    singleton = singleton;
    internal = internal;
    imports = [];
    in_header = true;
    if_scopes = [];
    source_masked = false;
    line_num = 0;
    override_text = [];
    is_overridden = false;
    scan_errors = [];
  }

  -- The scan of a file's lines, and the text that replaces the file if one does.
  unfoldable pub scan_qml_file : Bool → Bool → List (List ℕ) → Scan × Option (List (List ℕ))
  scan_qml_file singleton internal lines =
      let s = scan_lines lines (no_scan singleton internal) in
      let s' = close_scopes s.if_scopes s in
      (s', if s'.is_overridden then some s'.override_text else none)
