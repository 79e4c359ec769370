-- ===== src/DesktopEntry/Locales.antt =====
-- The locales of core/desktopentry.cpp, and which of two values of a key stays.
use mcs_qs.Log.{same_bytes}
use mcs_qs.Texts.{is_empty, index_of_char}
use mcs_qs.Prelude.{
  ℕ, ◌+◌, ◌-◌, Bool, ◌&&◌, ◌||◌, not, Option, none, some, List, [], length, take, drop, ltb, ◌==◌,
  if◌then◌else◌,
}

pub record Locale : Type 0 where
  pub language : List ℕ
  pub territory : List ℕ
  pub modifier : List ℕ

abbrev pub no_locale : Locale
no_locale = record { language = []; territory = []; modifier = [] }

-- QString::sliced. A length below 0, which the source leaves undefined, is 0 here.
abbrev pub sliced : ℕ → ℕ → List ℕ → List ℕ
sliced start n xs = take n (drop start xs)

abbrev after_mark : Option ℕ → ℕ → List ℕ → List ℕ
after_mark none end xs = []
after_mark (some i) end xs = sliced (i + 1) (end - i - 1) xs

abbrev or_end : Option ℕ → ℕ → ℕ
or_end none end = end
or_end (some i) end = i

-- The modifier ends with the text, the territory where the codeset or the modifier begins.
unfoldable pub parse_locale : List ℕ → Locale
parse_locale xs =
    let territory_idx = index_of_char b'_' xs in
    let modifier_idx = index_of_char b'@' xs in
    let end = or_end (index_of_char b'.' xs) (or_end modifier_idx (length xs)) in
    record {
      modifier = after_mark modifier_idx (length xs) xs;
      territory = after_mark territory_idx end xs;
      language = sliced 0 (or_end territory_idx end) xs;
    }

abbrev pub is_valid : Locale → Bool
is_valid l = not (is_empty l.language)

-- The score of a locale for the system's.
unfoldable pub match_score : Locale → Locale → ℕ
match_score system other =
    if not (same_bytes system.language other.language)
    then 0
    else if not (is_empty other.modifier) && not (same_bytes system.modifier other.modifier)
    then 0
    else if not (is_empty other.territory) && not (same_bytes system.territory other.territory)
    then 0
    else 1
      + (if is_empty other.territory then 0 else 2)
      + (if is_empty other.modifier then 0 else 1)

-- The value that stays, of an old one and a new one of the same key.
unfoldable pub better : Locale → Locale × List ℕ → Locale × List ℕ → Locale × List ℕ
better system old new =
    if ltb (match_score system old.0) (match_score system new.0)
      || (match_score system old.0 == 0 && not (is_valid new.0))
    then new
    else old

abbrev pub stays : Locale → Option (Locale × List ℕ) → Locale × List ℕ → Locale × List ℕ
stays system none new = new
stays system (some old) new = better system old new
