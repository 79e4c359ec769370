-- ===== src/Network/Settings.antt =====
-- `mergeSettingsMaps` and `removeSettingsInMap` of network/nm/utils.cpp: maps of groups of settings.
-- A map is an association list; where the source iterates over one, no two of its keys are the same.
pub mod Groups
use mcs_qs.Log.{same_bytes}
use mcs_qs.Rules.Find.{same_bytes_sound, same_bytes_refl}
use mcs_qs.Texts.{is_empty, lookup, insert, lookup-insert_self, lookup-insert_ne}
use mcs_qs.Prelude.{
  ℕ, ◌≡◌, ◌≢◌, inl, inr, Bool-cases, Option-cases, refl, arith, Bool, true, false, Option, none,
  some, List, [], ◌∷◌, ◌++◌, if◌then◌else◌, ap, sym, subst, ◌∙◌,
}

abbrev pub or_nil : {A : Type 0} → Option (List A) → List A
or_nil none = []
or_nil (some xs) = xs

-- QMap::remove
module _ {V : Type 0} where
  unfoldable pub erase_key : List ℕ → List (List ℕ × V) → List (List ℕ × V)
  erase_key k [] = []
  erase_key k ((j, v) ∷ m) =
      let rest = erase_key k m in if same_bytes j k then rest else (j, v) ∷ rest

  -- QVariantMap::insert of a map, and the removal of the keys of one.
  unfoldable pub insert_all : List (List ℕ × V) → List (List ℕ × V) → List (List ℕ × V)
  insert_all [] m = m
  insert_all ((k, v) ∷ es) m = insert_all es (insert k v m)

  unfoldable pub erase_all : List (List ℕ × V) → List (List ℕ × V) → List (List ℕ × V)
  erase_all [] m = m
  erase_all ((k, v) ∷ es) m = erase_all es (erase_key k m)

  abbrev pub KeysDistinct : List (List ℕ × V) → Type 0
  KeysDistinct [] = Unit {0}
  KeysDistinct ((k, v) ∷ m) = (lookup k m ≡ none) × KeysDistinct m

  abbrev pub or_else : Option V → Option V → Option V
  or_else none o = o
  or_else (some v) o = some v

  pub lookup-erase_key_self : (k : List ℕ) (m : List (List ℕ × V)) → lookup k (erase_key k m) ≡ none
  unfolding lookup erase_key
  lookup-erase_key_self k [] = refl
  lookup-erase_key_self k ((j, v) ∷ m) = elim (Bool-cases (same_bytes j k)) [
    | inl t ↦ rw t (lookup-erase_key_self k m)
    | inr f ↦ rw (f, f) (lookup-erase_key_self k m)
  ]

  pub lookup-erase_key_ne :
      (k j : List ℕ) (m : List (List ℕ × V))
      → same_bytes k j ≡ false
      → lookup j (erase_key k m) ≡ lookup j m
  unfolding lookup erase_key
  lookup-erase_key_ne k j [] h = refl
  lookup-erase_key_ne k j ((i, v) ∷ m) h = elim (Bool-cases (same_bytes i k)) [
    | inl t ↦
        let other : same_bytes i j ≡ false =
          ap (λ x. same_bytes x j) (same_bytes_sound i k t) ∙ h in
        rw (t, other) (lookup-erase_key_ne k j m h)
    | inr f ↦ elim (Bool-cases (same_bytes i j)) [
      | inl s ↦ rw (f, s) refl
      | inr s ↦ rw (f, s) (lookup-erase_key_ne k j m h)
    ]
  ]

  pub lookup_same :
      (k j : List ℕ) (m : List (List ℕ × V)) → same_bytes k j ≡ true → lookup k m ≡ lookup j m
  lookup_same k j m t = ap (λ x. lookup x m) (same_bytes_sound k j t)

  pub lookup-insert_all :
      (es m : List (List ℕ × V)) (k : List ℕ)
      → KeysDistinct es
      → lookup k (insert_all es m) ≡ or_else (lookup k es) (lookup k m)
  unfolding lookup insert_all
  lookup-insert_all [] m k d = refl
  lookup-insert_all ((j, v) ∷ es) m k (fresh, d) = elim (Bool-cases (same_bytes j k)) [
    | inl t ↦
        let missing : lookup k es ≡ none = sym (lookup_same j k es t) ∙ fresh in
        rw t (
          lookup-insert_all es (insert j v m) k d
          ∙ ap (λ o. or_else o (lookup k (insert j v m))) missing
          ∙ sym (lookup_same j k (insert j v m) t)
          ∙ lookup-insert_self j v m)
    | inr f ↦ rw f (
        lookup-insert_all es (insert j v m) k d
        ∙ ap (or_else (lookup k es)) (lookup-insert_ne j k v m f))
  ]

  abbrev pub none_if : Option V → Option V → Option V
  none_if none o = o
  none_if (some v) o = none

  none_if-none : (o : Option V) → none_if o none ≡ none
  none_if-none none = refl
  none_if-none (some v) = refl

  pub lookup-erase_all :
      (es m : List (List ℕ × V)) (k : List ℕ)
      → lookup k (erase_all es m) ≡ none_if (lookup k es) (lookup k m)
  unfolding lookup erase_all
  lookup-erase_all [] m k = refl
  lookup-erase_all ((j, v) ∷ es) m k = elim (Bool-cases (same_bytes j k)) [
    | inl t ↦ rw t (
        lookup-erase_all es (erase_key j m) k
        ∙ ap (none_if (lookup k es))
            (sym (lookup_same j k (erase_key j m) t) ∙ lookup-erase_key_self j m)
        ∙ none_if-none (lookup k es))
    | inr f ↦ rw f (
        lookup-erase_all es (erase_key j m) k
        ∙ ap (none_if (lookup k es)) (lookup-erase_key_ne j k m f))
  ]

  pub erase_all_nil : (es : List (List ℕ × V)) → erase_all es [] ≡ []
  unfolding erase_all erase_key
  erase_all_nil [] = refl
  erase_all_nil ((k, v) ∷ es) = erase_all_nil es

-- Values are variants, of any type; a group that is missing is read as an empty one.
module _ {V : Type 0} where
  abbrev pub group : List ℕ → List (List ℕ × List (List ℕ × V)) → List (List ℕ × V)
  group g m = or_nil (lookup g m)

  -- The loop of `mergeSettingsMaps`, over the source.
  unfoldable pub merge_settings_maps :
      List (List ℕ × List (List ℕ × V))
      → List (List ℕ × List (List ℕ × V))
      → List (List ℕ × List (List ℕ × V))
  merge_settings_maps target [] = target
  merge_settings_maps target ((g, values) ∷ source) =
      merge_settings_maps (insert g (insert_all values (group g target)) target) source

  abbrev pub without_group :
      List ℕ
      → List (List ℕ × V)
      → Option (List (List ℕ × V))
      → List (List ℕ × List (List ℕ × V))
      → List (List ℕ × List (List ℕ × V))
  without_group g keys none result = result
  without_group g keys (some values) result =
      let left = erase_all keys values in
      if is_empty left then erase_key g result else insert g left result

  -- The loop of `removeSettingsInMap`.
  unfoldable pub remove_settings_in_map :
      List (List ℕ × List (List ℕ × V))
      → List (List ℕ × List (List ℕ × V))
      → List (List ℕ × List (List ℕ × V))
  remove_settings_in_map result [] = result
  remove_settings_in_map result ((g, keys) ∷ to_remove) =
      remove_settings_in_map (without_group g keys (lookup g result) result) to_remove
