-- ===== src/Scanner/Nesting.antt =====
-- The loop of `scanQmlFile` of core/scan.cpp masks what the nesting of the blocks says.
use mathlib.Core.List.{append_assoc, append-nil}
use mcs_qs.Rules.{starts_with}
use mcs_qs.Texts.{codes}
use mcs_qs.Scanner.{
  ScanEnv, Scan, append_line, on_endif, open_scope, own_mask, post_value, is_error, not_bool,
  to_bool, Evaluated, directive, end_line, after_header, scan_line, scan_lines, no_scan,
  close_scopes, scan_qml_file,
}
use mcs_qs.Scanner.Masks.{
  Directive, opens, closes, plain, nest, any_masks, is_masked, all_scopes, top_scope-all_scopes,
  directive_of, shown, masked_text, nested, IsReadable, SameMasks, Agrees, header_line_lem,
}
use mcs_qs.Prelude.{
  ℕ, ◌+◌, ◌≡◌, inl, inr, Bool-cases, refl, arith, Bool, true, false, ◌&&◌, ◌||◌, not, Option, none,
  some, List, [], ◌∷◌, ◌++◌, drop, All, if◌then◌else◌, ap, sym, subst, ◌∙◌,
}

hidden_mask : (outer own : Bool) → (not (not outer && own) && (outer || own)) ≡ outer
hidden_mask true true = refl
hidden_mask true false = refl
hidden_mask false true = refl
hidden_mask false false = refl

is_masked-false : (d : Directive) (st : List Bool) → any_masks st ≡ false → is_masked d st ≡ false
unfolding is_masked any_masks
is_masked-false (opens m) st h = h
is_masked-false closes [] h = refl
is_masked-false closes (m ∷ st) h = ground arith
is_masked-false plain st h = h

module _ (env : ScanEnv) where
  SameMasks-Agrees :
      (s t : Scan) (st : List Bool) → SameMasks env t s → Agrees env s st → Agrees env t st
  SameMasks-Agrees s t st m a = record {
    scopes = m.scopes ∙ a.scopes;
    masked = m.masked ∙ a.masked;
    overridden = λ e. a.overridden (sym m.overridden ∙ e);
  }

  -- What a line does: the scopes follow the blocks, and the line is added as the blocks show it.
  abbrev Adds : List ℕ → Scan → Scan → Directive → List Bool → Type 0
  Adds raw t s d st =
      Agrees env t (nest d st)
      × (t.override_text ≡ s.override_text ++ shown env (is_masked d st) raw ∷ [])
      × (t.is_overridden ≡ false → s.is_overridden ≡ false)

  Adds-open :
      (raw : List ℕ) (m : Bool) (s : Scan) (st : List Bool)
      → Agrees env s st
      → Adds raw (append_line (not s.source_masked && m) raw (open_scope m s)) s (opens m) st
  unfolding open_scope nest is_masked all_scopes any_masks
  Adds-open raw m s st a = (
    record {
      scopes =
          ap (λ b. (b || m) ∷ s.if_scopes) a.masked ∙ ap (λ l. (any_masks st || m) ∷ l) a.scopes;
      masked = ap (λ b. b || m) a.masked;
      overridden = λ e. ap (λ b. b || m) (sym a.masked) ∙ ground (arith, e);
    },
    ap (λ b. s.override_text ++ shown env b raw ∷ []) (hidden_mask s.source_masked m ∙ a.masked),
    λ e. ground (arith, e),
  )

  Adds-close :
      (raw : List ℕ) (s : Scan) (st : List Bool)
      → Agrees env s st
      → Adds raw (append_line false raw (on_endif s.if_scopes s)) s closes st
  unfolding nest is_masked
  Adds-close raw s [] a =
      let e : on_endif s.if_scopes s ≡ on_endif [] s =
        ap (λ l. on_endif l s) (a.scopes ∙ (unfold all_scopes in refl)) in
      subst (λ t. Adds raw (append_line false raw t) s closes []) (sym e)
        (unfold on_endif any_masks in
          (
            record { scopes = a.scopes; masked = a.masked; overridden = a.overridden },
            ap (λ b. s.override_text ++ shown env b raw ∷ []) a.masked,
            λ h. h,
          ))
  Adds-close raw s (m ∷ st) a =
      let e : on_endif s.if_scopes s ≡ on_endif ((any_masks st || m) ∷ all_scopes st) s =
        ap (λ l. on_endif l s) (a.scopes ∙ (unfold all_scopes in refl)) in
      subst (λ t. Adds raw (append_line false raw t) s closes (m ∷ st)) (sym e)
        (unfold on_endif any_masks in
          (
            record {
              scopes = refl;
              masked = top_scope-all_scopes st;
              overridden = λ h. ground (arith, a.overridden h);
            },
            ap (λ b. s.override_text ++ shown env b raw ∷ []) (top_scope-all_scopes st),
            λ h. h,
          ))

  post_value-SameMasks : (v : Evaluated) (s : Scan) → SameMasks env (post_value v s) s
  unfolding post_value
  post_value-SameMasks (to_bool b) s = record {
    scopes = refl;
    masked = refl;
    text = refl;
    overridden = refl;
  }
  post_value-SameMasks (is_error e) s = record {
    scopes = refl;
    masked = refl;
    text = refl;
    overridden = refl;
  }
  post_value-SameMasks (not_bool v) s = record {
    scopes = refl;
    masked = refl;
    text = refl;
    overridden = refl;
  }

  Adds-of_SameMasks :
      (raw : List ℕ) (t s s' : Scan) (d : Directive) (st : List Bool)
      → SameMasks env s' s
      → Adds raw t s' d st
      → Adds raw t s d st
  Adds-of_SameMasks raw t s s' d st m (a, text, over) = (
    a,
    text ∙ ap (λ l. l ++ shown env (is_masked d st) raw ∷ []) m.text,
    λ e. sym m.overridden ∙ over e,
  )

  Adds-directive :
      (raw : List ℕ) (s : Scan) (st : List Bool)
      → Agrees env s st
      → Adds raw
          (end_line env raw (directive env (env.trimmed raw) s))
          s
          (directive_of env (env.trimmed raw))
          st
  unfolding directive directive_of
  Adds-directive raw s st a =
      let line = env.trimmed raw in
      elim (Bool-cases (starts_with (codes "//@ if ") line)) [
        | inl t ↦
            let value = env.evaluate (drop 7 line) in
            let s' = post_value value s in
            let m = post_value-SameMasks value s in
            let hide : (not s'.source_masked && own_mask value)
                ≡ (not s.source_masked && own_mask value) =
              ap (λ b. not b && own_mask value) m.masked in
            rw t (
              subst
                (λ h.
                  Adds raw (append_line h raw (open_scope (own_mask value) s')) s
                    (opens (own_mask value)) st)
                hide
                (Adds-of_SameMasks raw _ s s' (opens (own_mask value)) st m
                  (Adds-open raw (own_mask value) s' st (SameMasks-Agrees s s' st m a))))
        | inr f ↦ elim (Bool-cases (starts_with (codes "//@ endif") line)) [
          | inl t ↦ rw (f, t) (Adds-close raw s st a)
          | inr g ↦
              rw (f, g)
                (unfold nest is_masked in
                  (
                    record { scopes = a.scopes; masked = a.masked; overridden = a.overridden },
                    ap (λ b. s.override_text ++ shown env b raw ∷ []) a.masked,
                    λ h. h,
                  ))
        ]
      ]

  scan_line_lem :
      (raw : List ℕ) (s : Scan) (st : List Bool)
      → IsReadable env raw
      → Agrees env s st
      → Adds raw (scan_line env raw s) s (directive_of env (env.trimmed raw)) st
  unfolding scan_line
  scan_line_lem raw s0 st readable a =
      let s = record s0 { line_num = s0.line_num + 1 } in
      let line = env.trimmed raw in
      let a' : Agrees env s st = record {
        scopes = a.scopes;
        masked = a.masked;
        overridden = a.overridden;
      } in
      let (t, e, m) = header_line_lem env raw s readable in
      elim (Bool-cases (not s.source_masked && s.in_header)) [
        | inl h ↦ rw h (
            subst (λ o. Adds raw (after_header env raw line o s) s0 (directive_of env line) st)
              (sym e)
              (Adds-of_SameMasks raw _ s t (directive_of env line) st m
                (Adds-directive raw t st (SameMasks-Agrees s t st m a'))))
        | inr h ↦ rw h (Adds-directive raw s st a')
      ]

  scan_lines_lem :
      (lines : List (List ℕ)) (s : Scan) (st : List Bool)
      → All (IsReadable env) lines
      → Agrees env s st
      → Agrees env (scan_lines env lines s) (nested env st lines)
        × ((scan_lines env lines s).override_text ≡ s.override_text ++ masked_text env st lines)
        × ((scan_lines env lines s).is_overridden ≡ false
            → (s.is_overridden ≡ false) × (masked_text env st lines ≡ lines))
  unfolding scan_lines nested masked_text
  scan_lines_lem [] s st readable a = (a, sym (append-nil s.override_text), λ e. (e, refl))
  scan_lines_lem (raw ∷ lines) s st (r, readable) a =
      let d = directive_of env (env.trimmed raw) in
      let (a', text, over) = scan_line_lem raw s st r a in
      let (a'', text', over') =
        scan_lines_lem lines (scan_line env raw s) (nest d st) readable a' in
      (
        a'',
        text'
            ∙ ap (λ l. l ++ masked_text env (nest d st) lines) text
            ∙ append_assoc s.override_text (shown env (is_masked d st) raw ∷ [])
                (masked_text env (nest d st) lines),
        λ e.
            let (before, same) = over' e in
            let clear = over before in
            (
              clear,
              ap (λ b. shown env b raw ∷ masked_text env (nest d st) lines)
                    (is_masked-false d st (a.overridden clear))
                  ∙ ap (λ l. raw ∷ l) same,
            ),
      )

  -- What the views of a file read: the override text, or the file itself.
  abbrev pub read_text : Option (List (List ℕ)) → List (List ℕ) → List (List ℕ)
  read_text none lines = lines
  read_text (some text) lines = text

  read_text_lem :
      (b b' : Bool) (text text' lines spec : List (List ℕ))
      → b ≡ b'
      → text ≡ text'
      → text' ≡ spec
      → (b' ≡ false → spec ≡ lines)
      → read_text (if b then some text else none) lines ≡ spec
  read_text_lem true b' text text' lines spec e f g h = f ∙ g
  read_text_lem false b' text text' lines spec e f g h = sym (h (sym e))

  close_scopes-same :
      (scopes : List Bool) (s : Scan)
      → ((close_scopes env scopes s).override_text ≡ s.override_text)
        × ((close_scopes env scopes s).is_overridden ≡ s.is_overridden)
  close_scopes-same [] s = (refl, refl)
  close_scopes-same (m ∷ scopes) s = (refl, refl)

  -- A file whose imports can all be read is read with as many lines in the same order, and exactly the lines
  -- are marked that stand in a block whose condition does not hold, or in a block inside such a block. The
  -- error for an unclosed block is posted if the nesting leaves a block open, and only then.
  pub scan_qml_file_lem :
      (singleton internal : Bool) (lines : List (List ℕ))
      → All (IsReadable env) lines
      → (read_text (scan_qml_file env singleton internal lines).1 lines ≡ masked_text env [] lines)
        × ((scan_qml_file env singleton internal lines).0
            ≡ close_scopes env
                (all_scopes (nested env [] lines))
                (scan_lines env lines (no_scan env singleton internal)))
  unfolding scan_qml_file
  scan_qml_file_lem singleton internal lines readable =
      let s0 = no_scan env singleton internal in
      let s = scan_lines env lines s0 in
      let start : Agrees env s0 [] =
        unfold all_scopes any_masks in
        record { scopes = refl; masked = refl; overridden = λ e. refl } in
      let (a, text, over) = scan_lines_lem lines s0 [] readable start in
      let (same_text, same_over) = close_scopes-same s.if_scopes s in
      (
        read_text_lem _ s.is_overridden _ s.override_text lines (masked_text env [] lines) same_over
            same_text text (λ e. (over e).1),
        ap (λ l. close_scopes env l s) a.scopes,
      )
