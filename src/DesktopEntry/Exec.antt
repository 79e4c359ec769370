-- ===== src/DesktopEntry/Exec.antt =====
-- `DesktopEntry::parseExecString` of core/desktopentry.cpp: the `Exec` key as arguments. What it logs is
-- left out.
use mcs_qs.Prelude.{
  ℕ, ◌+◌, Bool, true, false, ◌&&◌, ◌||◌, not, List, [], ◌∷◌, ◌++◌, ◌==◌, if◌then◌else◌,
}

pub record ExecParser : Type 0 where
  pub arguments : List (List ℕ)
  pub current_argument : List ℕ
  pub parsing_string : Bool
  pub escape : ℕ
  pub percent : Bool

abbrev pub backslash : ℕ
backslash = 92

abbrev is_quote : ℕ → Bool
is_quote c = c == b'"' || c == 39

-- The character of an escape sequence; the source warns of one that is not known.
unfoldable pub escaped : ℕ → ℕ
escaped c =
    if c == b's'
    then 32
    else if c == b'n'
    then 10
    else if c == b't'
    then 9
    else if c == b'r'
    then 13
    else c

abbrev pub add_char : ℕ → ExecParser → ExecParser
add_char c p = record p { current_argument = p.current_argument ++ c ∷ [] }

-- An argument without characters is not kept.
unfoldable pub end_argument : List ℕ → ExecParser → ExecParser
end_argument [] p = p
end_argument (x ∷ xs) p = record p {
  arguments = p.arguments ++ (x ∷ xs) ∷ [];
  current_argument = [];
}

unfoldable pub string_char : ℕ → ExecParser → ExecParser
unfolding escaped
string_char c p =
    if c == backslash
    then if p.escape + 1 == 4
      then record (add_char backslash p) { escape = 0 }
      else record p { escape = p.escape + 1 }
    else if p.escape == 2
    then record (add_char c p) { escape = 0 }
    else if not (p.escape == 0)
    then record (add_char (escaped c) p) { escape = 0 }
    else if is_quote c
    then record p { parsing_string = false }
    else add_char c p

unfoldable pub plain_char : ℕ → ExecParser → ExecParser
unfolding end_argument
plain_char c p =
    if not (p.escape == 0)
    then record (add_char c p) { escape = 0 }
    else if p.percent
    then record (if c == b'%' then add_char c p else p) { percent = false }
    else if c == b'%'
    then record p { percent = true }
    else if is_quote c
    then record p { parsing_string = true }
    else if c == b' '
    then end_argument p.current_argument p
    else add_char c p

-- A round of the loop.
unfoldable pub exec_char : ℕ → ExecParser → ExecParser
unfolding string_char plain_char
exec_char c p =
    if p.escape == 0 && c == backslash
    then record p { escape = 1 }
    else if p.parsing_string
    then string_char c p
    else plain_char c p

unfoldable pub exec_loop : List ℕ → ExecParser → ExecParser
exec_loop [] p = p
exec_loop (c ∷ cs) p = exec_loop cs (exec_char c p)

abbrev pub start : ExecParser
start = record {
  arguments = [];
  current_argument = [];
  parsing_string = false;
  escape = 0;
  percent = false;
}

unfoldable pub parse_exec_string : List ℕ → List (List ℕ)
unfolding end_argument
parse_exec_string text =
    let p = exec_loop text start in (end_argument p.current_argument p).arguments
