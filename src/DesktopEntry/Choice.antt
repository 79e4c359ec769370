-- ===== src/DesktopEntry/Choice.antt =====
-- Which value of a key `parseText` of core/desktopentry.cpp keeps, of those that a group gives for it.
use mcs_qs.DesktopEntry.{put_entry, ends_with}
use mcs_qs.DesktopEntry.Locales.{Locale, is_valid, match_score}
use mcs_qs.Log.{same_bytes}
use mcs_qs.Rules.{starts_with}
use mcs_qs.Prelude.{
  ℕ, ◌≤◌, ◌≡◌, Bool, true, false, ◌&&◌, Option, none, some, List, [], ◌∷◌, ◌++◌, All,
}

abbrev Value : Type 0
Value = Locale × List ℕ

abbrev Entries : Type 0
Entries = List (List ℕ × Value)

-- The values that the lines give for a key, with their locales.
abbrev value_if : Bool → Value → List Value → List Value
value_if true v vs = v ∷ vs
value_if false v vs = vs

unfoldable pub values_of : List ℕ → List (Option (List ℕ × Value)) → List Value
values_of key [] = []
values_of key (none ∷ lines) = values_of key lines
values_of key (some (k, v) ∷ lines) = value_if (same_bytes k key) v (values_of key lines)

-- A line of a group that is neither a comment nor the header of the next group.
abbrev pub IsEntry : List ℕ → Type 0
IsEntry line =
    (starts_with (b'#' ∷ []) line ≡ false)
    × ((starts_with (b'[' ∷ []) line && ends_with b']' line) ≡ false)

module _ (system : Locale) where
  abbrev score : Value → ℕ
  score v = match_score system v.0

  -- There is no value, or one of them: none has a higher score, and if its score is 0 it has a locale
  -- only if all have one.
  abbrev pub Chosen : List Value → Option Value → Type 0
  Chosen vs none = vs ≡ []
  Chosen vs (some r) =
      ((front : List Value) × (after : List Value) × (vs ≡ front ++ r ∷ after))
      × All (λ v. score v ≤ score r) vs
      × (score r ≡ 0 → is_valid r.0 ≡ true → All (λ v. is_valid v.0 ≡ true) vs)

  -- The entries after some lines.
  unfoldable put_entries : List (Option (List ℕ × Value)) → Entries → Entries
  put_entries [] es = es
  put_entries (line ∷ lines) es = put_entries lines (put_entry system line es)
