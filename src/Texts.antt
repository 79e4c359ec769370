-- ===== src/Texts.antt =====
-- Texts as lists of code points: their splitting, and dictionaries with text keys.
use mathlib.Core.Bool.{Bool, true, false}
use mathlib.Core.List.{List, [], ◌∷◌, ◌++◌}
use mathlib.Core.Logic.{inl, inr}
use mathlib.Core.Option.{Option, none, some}
use mathlib.Core.Path.{◌≡◌, refl, ap, ◌∙◌}
use Prim.Native.Nat.{ℕ, suc}
use Prim.Native.Char.{code}
use Prim.Native.String.{String}
use mcs_qs.Log.{same_bytes}
use mcs_qs.Prelude.{◌==◌, if◌then◌else◌, Bool-cases}
use mcs_qs.Rules.Find.{same_bytes_sound, same_bytes_refl}

abbrev pub codes : String → List ℕ
codes String.[] = []
codes (String.◌∷◌ c s) = code c ∷ codes s

abbrev pub is_empty : {A : Type 0} → List A → Bool
is_empty [] = true
is_empty (x ∷ xs) = false

-- QString::indexOf of a character; -1 is `none`.
unfoldable pub index_of_char : ℕ → List ℕ → Option ℕ
index_of_char c [] = none
index_of_char c (x ∷ xs) =
    let rest = index_of_char c xs in
    if x == c then some 0 else elim rest [ none ↦ none | some i ↦ some (suc i) ]

-- QString::split: the part that is read, and the text that is left.
unfoldable pub split_from : ℕ → List ℕ → List ℕ → List (List ℕ)
split_from c part [] = part ∷ []
split_from c part (x ∷ xs) =
    let next = split_from c [] xs in
    let rest = split_from c (part ++ x ∷ []) xs in if x == c then part ∷ next else rest

unfoldable pub skip_empty : List (List ℕ) → List (List ℕ)
skip_empty [] = []
skip_empty (p ∷ ps) = let rest = skip_empty ps in if is_empty p then rest else p ∷ rest

-- With Qt::SkipEmptyParts.
abbrev pub split : ℕ → List ℕ → List (List ℕ)
split c xs = skip_empty (split_from c [] xs)

module _ {V : Type 0} where
  unfoldable pub lookup : List ℕ → List (List ℕ × V) → Option V
  lookup k [] = none
  lookup k ((j, v) ∷ m) = let rest = lookup k m in if same_bytes j k then some v else rest

  unfoldable pub insert : List ℕ → V → List (List ℕ × V) → List (List ℕ × V)
  insert k v [] = (k, v) ∷ []
  insert k v ((j, w) ∷ m) =
      let rest = insert k v m in if same_bytes j k then (k, v) ∷ m else (j, w) ∷ rest

  pub lookup-insert_self :
      (k : List ℕ) (v : V) (m : List (List ℕ × V)) → lookup k (insert k v m) ≡ some v
  unfolding lookup insert
  lookup-insert_self k v [] = rw (same_bytes_refl k) refl
  lookup-insert_self k v ((j, w) ∷ m) = elim (Bool-cases (same_bytes j k)) [
    | inl t ↦ rw (t, same_bytes_refl k) refl
    | inr f ↦ rw (f, f) (lookup-insert_self k v m)
  ]

  pub lookup-insert_ne :
      (k j : List ℕ) (v : V) (m : List (List ℕ × V))
      → same_bytes k j ≡ false
      → lookup j (insert k v m) ≡ lookup j m
  unfolding lookup insert
  lookup-insert_ne k j v [] h = rw h refl
  lookup-insert_ne k j v ((i, w) ∷ m) h = elim (Bool-cases (same_bytes i k)) [
    | inl t ↦
        let other : same_bytes i j ≡ false =
          ap (λ x. same_bytes x j) (same_bytes_sound i k t) ∙ h in
        rw (t, h, other) refl
    | inr f ↦ elim (Bool-cases (same_bytes i j)) [
      | inl s ↦ rw (f, s) refl
      | inr s ↦ rw (f, s) (lookup-insert_ne k j v m h)
    ]
  ]
