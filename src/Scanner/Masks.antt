-- ===== src/Scanner/Masks.antt =====
-- The masks of core/scan.cpp against the nesting of the blocks.
use mcs_qs.Rules.{starts_with, contains}
use mcs_qs.Texts.{codes}
use mcs_qs.Scanner.{
  ScanEnv, Scan, mask_mark, top_scope, own_mask, import_of, header_line, add_import, is_line,
}
use mcs_qs.Prelude.{
  ℕ, ◌≡◌, ◌⊎◌, inl, inr, Bool-cases, refl, Bool, true, false, ◌&&◌, ◌||◌, not, Option, none, some,
  List, [], ◌∷◌, ◌++◌, drop, if◌then◌else◌, ap, ◌∙◌,
}

pub data Directive : Type 0 where
  opens : (masks : Bool) → Directive
  closes : Directive
  plain : Directive

-- The conditions of the blocks that are open, from the innermost: whether each masks by itself.
unfoldable pub nest : Directive → List Bool → List Bool
nest (opens masks) st = masks ∷ st
nest closes [] = []
nest closes (masks ∷ st) = st
nest plain st = st

-- A line is masked if one of the blocks masks that it is in.
unfoldable pub any_masks : List Bool → Bool
any_masks [] = false
any_masks (masks ∷ st) = any_masks st || masks

-- The lines of a block are between its directives, which belong to the block around it.
unfoldable pub is_masked : Directive → List Bool → Bool
is_masked (opens masks) st = any_masks st
is_masked closes [] = false
is_masked closes (masks ∷ st) = any_masks st
is_masked plain st = any_masks st

unfoldable pub all_scopes : List Bool → List Bool
all_scopes [] = []
all_scopes (masks ∷ st) = (any_masks st || masks) ∷ all_scopes st

pub top_scope-all_scopes : (st : List Bool) → top_scope (all_scopes st) ≡ any_masks st
unfolding all_scopes any_masks
top_scope-all_scopes [] = refl
top_scope-all_scopes (m ∷ st) = refl

module _ (env : ScanEnv) where
  unfoldable pub directive_of : List ℕ → Directive
  directive_of line =
      if starts_with (codes "//@ if ") line
      then opens (own_mask (env.evaluate (drop 7 line)))
      else if starts_with (codes "//@ endif") line
      then closes
      else plain

  abbrev pub shown : Bool → List ℕ → List ℕ
  shown masked raw = if masked then mask_mark ++ raw else raw

  unfoldable pub masked_text : List Bool → List (List ℕ) → List (List ℕ)
  masked_text st [] = []
  masked_text st (raw ∷ lines) =
      let d = directive_of (env.trimmed raw) in
      shown (is_masked d st) raw ∷ masked_text (nest d st) lines

  unfoldable pub nested : List Bool → List (List ℕ) → List Bool
  nested st [] = st
  nested st (raw ∷ lines) = nested (nest (directive_of (env.trimmed raw)) st) lines

  -- A line that is no import, or one that the header reads.
  abbrev pub IsReadable : List ℕ → Type 0
  IsReadable raw =
      (starts_with (codes "import") (env.trimmed raw) ≡ false)
      ⊎ ((o : Option (List ℕ)) × (import_of env (env.trimmed raw) ≡ some o))

  pub record SameMasks (s t : Scan) : Type 0 where
    pub scopes : s.if_scopes ≡ t.if_scopes
    pub masked : s.source_masked ≡ t.source_masked
    pub text : s.override_text ≡ t.override_text
    pub overridden : s.is_overridden ≡ t.is_overridden

  pub record Agrees (s : Scan) (st : List Bool) : Type 0 where
    pub scopes : s.if_scopes ≡ all_scopes st
    pub masked : s.source_masked ≡ any_masks st
    pub overridden : s.is_overridden ≡ false → any_masks st ≡ false

  add_import_lem :
      (o : Option (List ℕ)) (s : Scan)
      → (t : Scan) × (add_import (some o) s ≡ some t) × SameMasks t s
  add_import_lem none s =
      (s, refl, record { scopes = refl; masked = refl; text = refl; overridden = refl })
  add_import_lem (some name) s = (
    record s { imports = s.imports ++ name ∷ [] },
    refl,
    record { scopes = refl; masked = refl; text = refl; overridden = refl },
  )

  header_rest :
      (line : List ℕ) (s : Scan)
      → (not s.singleton && is_line "pragma Singleton" line) ≡ false
      → starts_with (codes "import") line ≡ false
      → (t : Scan) × (header_line env line s ≡ some t) × SameMasks t s
  unfolding header_line
  header_rest line s a b =
      elim (Bool-cases (not s.internal && is_line "//@ pragma Internal" line)) [
        | inl c ↦ (
          record s { internal = true },
          rw (a, b, c) refl,
          record { scopes = refl; masked = refl; text = refl; overridden = refl },
        )
        | inr c ↦ elim (Bool-cases (contains b'{' line)) [
          | inl d ↦ (
            record s { in_header = false },
            rw (a, b, c, d) refl,
            record { scopes = refl; masked = refl; text = refl; overridden = refl },
          )
          | inr d ↦ (
            s,
            rw (a, b, c, d) refl,
            record { scopes = refl; masked = refl; text = refl; overridden = refl },
          )
        ]
      ]

  pub header_line_lem :
      (raw : List ℕ) (s : Scan)
      → IsReadable raw
      → (t : Scan) × (header_line env (env.trimmed raw) s ≡ some t) × SameMasks t s
  unfolding header_line
  header_line_lem raw s readable =
      let line = env.trimmed raw in
      elim (Bool-cases (not s.singleton && is_line "pragma Singleton" line)) [
        | inl a ↦ (
          record s { singleton = true },
          rw a refl,
          record { scopes = refl; masked = refl; text = refl; overridden = refl },
        )
        | inr a ↦ elim readable [
          | inr (o, e) ↦ elim (Bool-cases (starts_with (codes "import") line)) [
            | inl b ↦
                let (t, f, same') = add_import_lem o s in
                (t, rw (a, b) (ap (λ i. add_import i s) e ∙ f), same')
            | inr b ↦ header_rest line s a b
          ]
          | inl b ↦ header_rest line s a b
        ]
      ]
