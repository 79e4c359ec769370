-- ===== src/Rules/Pass.antt =====
-- When a rule applies to a category.
use mcs_qs.Prelude.{
  ℕ, zero, suc, ◌+◌, ◌-◌, ◌<◌, ◌++◌, [], ◌∷◌, take, take-drop, length-take, length-drop,
  length-append, ap, sym, ◌∙◌, ◌≡◌, ◌≢◌, ◌↔◌, inl, inr, refl, arith, Bool, true, false, ◌&&◌, none,
  some, List, length, drop, ◌==◌, if◌then◌else◌, Bool-cases, Option-cases,
}
use mcs_qs.Prelude.Int.{ℤ, pos, eqb_ℤ, ◌-ℤ◌}
use mathlib.Core.List.{append-nil}
use mcs_qs.Log.{MsgType, same_bytes}
use mcs_qs.Rules.{
  LoggingRule, right_filter, starts_with, find_string, verdict, is_for, pass, contains, asterisk,
  split_type, split_stars, ends_with, parse,
}
use mcs_qs.Rules.Find.{
  find_string_sound, find_string_complete, starts_with_sound, starts_with-append,
}

not_found : (p xs : List ℕ) (i : ℕ) → find_string p xs ≡ none → starts_with p (drop i xs) ≡ false
not_found p xs i e = elim (Bool-cases (starts_with p (drop i xs))) [
  | inl t ↦ absurd (ground (arith, find_string_complete p xs i t))
  | inr f ↦ f
]

found_first : (p xs : List ℕ) (i : ℕ) → find_string p xs ≡ some i → starts_with p xs ≡ (i == 0)
found_first p xs zero e = (find_string_sound p xs 0 e).0
found_first p xs (suc i) e = elim (Bool-cases (starts_with p xs)) [
  | inl t ↦ absurd (ground (arith, find_string_complete p xs 0 t))
  | inr f ↦ rw f (ground arith)
]

guard_if :
    (a b : Bool) (x y : ℤ) → (if a then (if b then x else y) else y) ≡ (if a && b then x else y)
guard_if true b x y = refl
guard_if false b x y = refl

at_end : (i a b : ℕ) → eqb_ℤ (pos i) (pos a -ℤ pos b) ≡ (i + b == a)
unfolding ◌-ℤ◌
at_end i a b = ground arith

verdict-ne : (b : Bool) → verdict b ≢ pos 0
verdict-ne true h = ground arith
verdict-ne false h = ground arith

at_end_iff :
    (i a b : ℕ) (enabled : Bool)
    → ((if i + b == a then verdict enabled else pos 0) ≢ pos 0)
      ↔ ((x : ℕ) × ((some i ≡ some x) × (a ≡ x + b)))
at_end_iff i a b enabled = elim (Bool-cases (i + b == a)) [
  | inl t ↦ rw t (λ n. (i, (refl, ground arith)), λ x. verdict-ne enabled)
  | inr f ↦ rw f (λ n. absurd (n refl), λ (x, (p, q)). absurd (ground arith))
]

-- A right filter decides where the first place of its text is also the end.
pass-right_filter :
    (rule : LoggingRule) (cat : List ℕ) (type : MsgType)
    → rule.flags ≡ right_filter
    → is_for rule.message_type type ≡ true
    → (pass rule cat type ≢ pos 0) ↔ (
        (i : ℕ) × ((find_string rule.category cat ≡ some i)
          × (length cat ≡ i + length rule.category)))
unfolding pass
pass-right_filter rule cat type f t = elim (Option-cases (find_string rule.category cat)) [
  | inl e ↦ rw (f, t, e) (λ n. absurd (n refl), λ (x, (p, q)). absurd (ground arith))
  | inr (i, e) ↦
      rw (f, t, e, at_end i (length cat) (length rule.category))
        (at_end_iff i (length cat) (length rule.category) rule.enabled)
]

drop-length_append : (xs ys : List ℕ) → drop (length xs) (xs ++ ys) ≡ ys
drop-length_append [] ys = refl
drop-length_append (x ∷ xs) ys = drop-length_append xs ys

no_bytes : (xs : List ℕ) → length xs ≡ 0 → xs ≡ []
no_bytes [] h = refl
no_bytes (x ∷ xs) h = absurd (ground arith)

-- A text with no asterisk does not end in one.
last_ne :
    (c t : ℕ) (ts : List ℕ)
    → contains c (t ∷ ts) ≡ false
    → same_bytes (drop (length ts) (t ∷ ts)) (c ∷ []) ≡ false
unfolding contains same_bytes
last_ne c t [] h = ground arith
last_ne c t (u ∷ us) h = last_ne c u us (ground arith)

and_false : (a b : Bool) → b ≡ false → (a && b) ≡ false
and_false true b e = e
and_false false b e = refl

one_less : (n : ℕ) → suc (suc n) - 1 ≡ suc n
one_less n = omega arith

not_at_end :
    (t : ℕ) (ts : List ℕ)
    → contains asterisk (t ∷ ts) ≡ false
    → ends_with (asterisk ∷ []) (asterisk ∷ t ∷ ts) ≡ false
unfolding ends_with
not_at_end t ts n = and_false _ _ (
    ap (λ k. same_bytes (drop k (asterisk ∷ t ∷ ts)) (asterisk ∷ [])) (one_less (length ts))
    ∙ last_ne asterisk t ts n)

star_first : (xs : List ℕ) → contains asterisk (asterisk ∷ xs) ≡ true
unfolding contains
star_first xs = refl

split_stars_right :
    (t : ℕ) (ts : List ℕ)
    → contains asterisk (t ∷ ts) ≡ false
    → split_stars (asterisk ∷ t ∷ ts) ≡ (right_filter, t ∷ ts)
unfolding split_stars starts_with
split_stars_right t ts n = rw (star_first (t ∷ ts), not_at_end t ts n, n) refl

-- What an asterisk before a text is parsed as.
parse_right :
    (t : ℕ) (ts : List ℕ) (enabled : Bool)
    → contains asterisk (t ∷ ts) ≡ false
    → split_type (asterisk ∷ t ∷ ts) ≡ (asterisk ∷ t ∷ ts, none)
    → parse (asterisk ∷ t ∷ ts) enabled
      ≡ record { category = t ∷ ts; message_type = none; flags = right_filter; enabled = enabled }
unfolding parse
parse_right t ts enabled n s = rw (s, split_stars_right t ts n) refl

-- The first place where a text is found is the end exactly if it stands at the end and not earlier.
first_at_end :
    (text cat : List ℕ)
    → ((i : ℕ) × ((find_string text cat ≡ some i) × (length cat ≡ i + length text))) ↔ (
        (before : List ℕ) × ((cat ≡ before ++ text)
          × ((i : ℕ) → i < length before → starts_with text (drop i cat) ≡ false)))
first_at_end text cat = (to, from)
  where
    to :
        (i : ℕ) × ((find_string text cat ≡ some i) × (length cat ≡ i + length text))
        → (before : List ℕ) × ((cat ≡ before ++ text)
            × ((i : ℕ) → i < length before → starts_with text (drop i cat) ≡ false))
    to (i, (e, l)) =
        let (found, le) = find_string_sound text cat i e in
        let rest : List ℕ = drop (length text) (drop i cat) in
        let empty : rest ≡ [] =
          no_bytes rest
            (omega (arith, length-drop i cat, length-drop (length text) (drop i cat))) in
        let here : drop i cat ≡ text =
          starts_with_sound text (drop i cat) found
          ∙ (ap (λ r. text ++ r) empty ∙ append-nil text) in
        (
          take i cat,
          (
            take-drop i cat ∙ ap (λ r. take i cat ++ r) here,
            λ j lt. elim (Bool-cases (starts_with text (drop j cat))) [
              | inl t ↦
                  let (k, (f, less)) = find_string_complete text cat j t in
                  absurd (ground (arith, e, f, less, lt, length-take i cat))
              | inr f ↦ f
            ],
          ),
        )

    from :
        (before : List ℕ) × ((cat ≡ before ++ text)
            × ((i : ℕ) → i < length before → starts_with text (drop i cat) ≡ false))
        → (i : ℕ) × ((find_string text cat ≡ some i) × (length cat ≡ i + length text))
    from (before, (e, none_before)) =
        let at_end' : starts_with text (drop (length before) cat) ≡ true =
          ap (λ xs. starts_with text (drop (length before) xs)) e
          ∙ (ap (starts_with text) (drop-length_append before text ∙ sym (append-nil text))
              ∙ starts_with-append text []) in
        let (k, (f, le)) = find_string_complete text cat (length before) at_end' in
        let (found, bound) = find_string_sound text cat k f in
        (k, (f, ground (arith, ap length e, length-append before text, none_before k, found, le)))

-- A rule that is an asterisk and a text, which is not empty and has no asterisk and no message type at
-- its end, decides for exactly the categories, of whatever type, that end with the text and do not have
-- it earlier as well.
pub pass-parse_right :
    (t : ℕ) (ts : List ℕ) (enabled : Bool) (cat : List ℕ) (type : MsgType)
    → contains asterisk (t ∷ ts) ≡ false
    → split_type (asterisk ∷ t ∷ ts) ≡ (asterisk ∷ t ∷ ts, none)
    → (pass (parse (asterisk ∷ t ∷ ts) enabled) cat type ≢ pos 0) ↔ (
        (before : List ℕ) × ((cat ≡ before ++ t ∷ ts)
          × ((i : ℕ) → i < length before → starts_with (t ∷ ts) (drop i cat) ≡ false)))
pass-parse_right t ts enabled cat type n s = rw (parse_right t ts enabled n s) (
    let p =
      pass-right_filter
        (record { category = t ∷ ts; message_type = none; flags = right_filter; enabled = enabled })
        cat type refl refl in
    let f = first_at_end (t ∷ ts) cat in (λ x. f.0 (p.0 x), λ y. p.1 (f.1 y)))
