-- ===== src/DesktopEntry/Quoting.antt =====
-- The round trip of the command line of core/desktopentry.cpp.
use mathlib.Core.List.{append_assoc, append-nil}
use mcs_qs.DesktopEntry.Exec.{
  ExecParser, backslash, end_argument, exec_char, exec_loop, parse_exec_string,
}
use mcs_qs.Texts.{is_empty}
use mcs_qs.Prelude.{
  ℕ, ◌≡◌, refl, arith, Bool, true, false, ◌||◌, List, [], ◌∷◌, ◌++◌, All, ◌==◌, if◌then◌else◌, ap,
  sym, ◌∙◌,
}

-- A character as it is quoted: a backslash is written four times, a quote after two backslashes.
unfoldable pub quote_char : ℕ → List ℕ
quote_char c =
    if c == backslash
    then backslash ∷ backslash ∷ backslash ∷ backslash ∷ []
    else if c == b'"' || c == 39
    then backslash ∷ backslash ∷ c ∷ []
    else c ∷ []

unfoldable pub quote_chars : List ℕ → List ℕ
quote_chars [] = []
quote_chars (c ∷ cs) = quote_char c ++ quote_chars cs

-- The arguments, each quoted and with a space after it.
unfoldable pub print_exec : List (List ℕ) → List ℕ
print_exec [] = []
print_exec (a ∷ as') = b'"' ∷ (quote_chars a ++ b'"' ∷ b' ' ∷ print_exec as')

abbrev state : List (List ℕ) → List ℕ → Bool → ExecParser
state arguments current parsing = record {
  arguments = arguments;
  current_argument = current;
  parsing_string = parsing;
  escape = 0;
  percent = false;
}

exec_loop-append :
    (xs ys : List ℕ) (p : ExecParser) → exec_loop (xs ++ ys) p ≡ exec_loop ys (exec_loop xs p)
unfolding exec_loop
exec_loop-append [] ys p = refl
exec_loop-append (x ∷ xs) ys p = exec_loop-append xs ys (exec_char x p)

quote_char_lem :
    (c : ℕ) (done : List (List ℕ)) (current : List ℕ)
    → exec_loop (quote_char c) (state done current true) ≡ state done (current ++ c ∷ []) true
unfolding exec_loop quote_char exec_char
quote_char_lem c done current = ground arith

quote_chars_lem :
    (cs : List ℕ) (done : List (List ℕ)) (current : List ℕ)
    → exec_loop (quote_chars cs) (state done current true) ≡ state done (current ++ cs) true
unfolding exec_loop quote_chars
quote_chars_lem [] done current = ap (λ l. state done l true) (sym (append-nil current))
quote_chars_lem (c ∷ cs) done current =
    exec_loop-append (quote_char c) (quote_chars cs) (state done current true)
    ∙ ap (exec_loop (quote_chars cs)) (quote_char_lem c done current)
    ∙ quote_chars_lem cs done (current ++ c ∷ [])
    ∙ ap (λ l. state done l true) (append_assoc current (c ∷ []) cs)

end_argument_lem :
    (a : List ℕ) (done : List (List ℕ))
    → is_empty a ≡ false
    → end_argument a (state done a false) ≡ state (done ++ a ∷ []) [] false
unfolding end_argument
end_argument_lem [] done h = cc
end_argument_lem (x ∷ xs) done h = refl

print_exec_lem :
    (args done : List (List ℕ))
    → All (λ a. is_empty a ≡ false) args
    → exec_loop (print_exec args) (state done [] false) ≡ state (done ++ args) [] false
unfolding exec_loop print_exec exec_char
print_exec_lem [] done h = ap (λ l. state l [] false) (sym (append-nil done))
print_exec_lem (a ∷ args) done (f, h) =
    exec_loop-append (quote_chars a) (b'"' ∷ b' ' ∷ print_exec args) (state done [] true)
    ∙ ap (exec_loop (b'"' ∷ b' ' ∷ print_exec args)) (quote_chars_lem a done [])
    ∙ ap (exec_loop (print_exec args)) (end_argument_lem a done f)
    ∙ print_exec_lem args (done ++ a ∷ []) h
    ∙ ap (λ l. state l [] false) (append_assoc done (a ∷ []) args)

-- Arguments that are not empty, each written between quotes with its backslashes and quotes escaped, are
-- what the parser reads, whatever else they hold: spaces, percent signs and the characters of sequences.
pub parse_exec_string-print_exec :
    (args : List (List ℕ))
    → All (λ a. is_empty a ≡ false) args
    → parse_exec_string (print_exec args) ≡ args
unfolding parse_exec_string
parse_exec_string-print_exec args h =
    ap (λ p. (end_argument p.current_argument p).arguments) (print_exec_lem args [] h)
