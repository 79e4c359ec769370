-- ===== src/DataStream/Lines.antt =====
-- Delimiters of one byte: what is read is the stream cut at them, whatever chunks it comes in.
use mcs_qs.Prelude.{
  ℕ, zero, suc, ◌+◌, ◌-◌, ◌≤◌, ◌≡◌, ◌≢◌, refl, arith, true, false, Option, some, none, List, [],
  ◌∷◌, ◌++◌, length, length-append, length-drop, get_elem?, take, drop, take-length_append, leb,
  min, All, ◌==◌, Bool-cases, inl, inr, ap, sym, ◌∙◌, subst,
}
use mathlib.Core.List.{append_assoc, append-nil}
use mcs_qs.StreamReader.Transactions.{join}
use mcs_qs.StreamReader.Until.{Without}
use mcs_qs.DataStream.{
  SplitParser, byte_at, is_byte, matches, parse_bytes, split_reads, reads_of, slice, emit, scan,
  remainder, split_bytes, with_remainder,
}
use mcs_qs.DataStream.Slices.{
  whole, is_byte_lem, byte_at_lem, take_all, IsStart, remainder_lem, between, slice_lem,
}
use mcs_qs.DataStream.Cut.{
  split, split-Without, is_apart, split-delimited, get_elem?-drop, Without-take, apart_get,
}
use mcs_qs.DataStream.Scan.{delimited, total, scan-Splits, scan_out, scan_end, scan_found, scan_on}
use mcs_qs.DataStream.Chunks.{parse_chunks, parse_marker}

module _ (c : ℕ) (buffer incoming : List ℕ) where
  abbrev bytes : List ℕ
  bytes = whole (c ∷ []) buffer incoming

  -- The slices have no delimiter in them, and neither have the bytes behind the last.
  abbrev IsClean : Option (List (List ℕ) × ℕ) → Type 0
  IsClean none = Unit {0}
  IsClean (some (xs, last)) = All (Without c) xs × Without c (drop last bytes)

  not_here :
      (place : ℕ)
      → matches (c ∷ []) buffer incoming (c ∷ []) place ≡ false
      → get_elem? bytes place ≢ some c
  unfolding matches
  not_here place h e =
      let same : (c == c) ≡ true = ground arith in
      absurd (ground (arith, h, byte_at_lem (c ∷ []) buffer incoming place ∙ e, same))

  is_here :
      (place : ℕ)
      → matches (c ∷ []) buffer incoming (c ∷ []) place ≡ true
      → get_elem? bytes place ≡ some c
  unfolding matches
  is_here place h =
      let byte : is_byte (c ∷ []) buffer incoming (byte_at (c ∷ []) buffer incoming place) c
          ≡ true =
        ground arith in
      sym (byte_at_lem (c ∷ []) buffer incoming place)
      ∙ is_byte_lem (c ∷ []) buffer incoming (byte_at (c ∷ []) buffer incoming place) c byte

  after_delimiter :
      (place : ℕ)
      → is_apart c bytes ≡ true
      → matches (c ∷ []) buffer incoming (c ∷ []) place ≡ true
      → get_elem? bytes (place + 1) ≢ some c
  after_delimiter place a h =
      let next : suc place ≡ place + 1 = omega arith in
      subst (λ k. get_elem? bytes k ≢ some c) next (apart_get c place bytes a (is_here place h))

  -- The bytes from the last delimiter up to the place of the loop.
  abbrev seen : ℕ → ℕ → List ℕ
  seen start place = between (c ∷ []) buffer incoming start place

  seen-next :
      (start place : ℕ)
      → start ≤ place
      → Without c (seen start place)
      → get_elem? bytes place ≢ some c
      → Without c (seen start (place + 1))
  seen-next start place l w h =
      let next : place + 1 - start ≡ suc (place - start) = omega (arith, l) in
      let there : start + (place - start) ≡ place = omega (arith, l) in
      subst (λ k. Without c (take k (drop start bytes))) (sym next)
        (Without-take c (place - start) (drop start bytes) w (λ e. h (
          ap (get_elem? bytes) (sym there) ∙ sym (get_elem?-drop start (place - start) bytes) ∙ e)))

  seen-none : (place : ℕ) → Without c (seen place place)
  seen-none place =
      let nothing : place - place ≡ 0 = omega arith in
      subst (λ k. Without c (take k (drop place bytes))) (sym nothing) tt

  past_end :
      (place : ℕ)
      → leb (place + 1) (length buffer + length incoming) ≡ false
      → length buffer + length incoming ≤ place
  past_end place h = ground arith

  seen_all :
      (start place : ℕ)
      → length buffer + length incoming ≤ place
      → Without c (seen start place)
      → Without c (drop start bytes)
  seen_all start place h w =
      subst (Without c)
        (take_all (place - start) (drop start bytes)
          (omega (arith, h, length-drop start bytes, length-append buffer incoming)))
        w

  emit-IsClean :
      (x : List ℕ) (out : Option (List (List ℕ) × ℕ))
      → Without c x
      → IsClean out
      → IsClean (emit (c ∷ []) buffer incoming x out)
  emit-IsClean x none w p = tt
  emit-IsClean x (some (xs, last)) w (a, p) = ((w, a), p)

  scan-IsClean :
      (fuel place start : ℕ)
      → is_apart c bytes ≡ true
      → IsStart (c ∷ []) buffer incoming start
      → start ≤ place
      → length buffer ≤ place
      → Without c (seen start place)
      → IsClean (scan (c ∷ []) buffer incoming fuel place start)
  scan-IsClean zero place start a s l b w =
      subst IsClean (sym (scan_out (c ∷ []) buffer incoming place start)) tt
  scan-IsClean (suc fuel) place start a s l b w =
      elim (Bool-cases (leb (place + 1) (total (c ∷ []) buffer incoming))) [
        | inr f ↦
            subst IsClean (sym (scan_end (c ∷ []) buffer incoming fuel place start f))
              (tt, seen_all start place (past_end place f) w)
        | inl t ↦ elim (Bool-cases (matches (c ∷ []) buffer incoming (c ∷ []) place)) [
          | inl found ↦
              subst IsClean (sym (scan_found (c ∷ []) buffer incoming fuel place start t found)) (
                emit-IsClean (slice (c ∷ []) buffer incoming start place)
                  (scan (c ∷ []) buffer incoming fuel (place + 1 + 1) (place + 1))
                  (subst (Without c) (sym (slice_lem (c ∷ []) buffer incoming start place s l)) w)
                  (scan-IsClean fuel (place + 1 + 1) (place + 1) a (inr (omega (arith, b)))
                    (omega arith) (omega (arith, b))
                    (seen-next (place + 1) (place + 1) (omega arith) (seen-none (place + 1))
                      (after_delimiter place a found))))
          | inr other ↦
              subst IsClean (sym (scan_on (c ∷ []) buffer incoming fuel place start t other)) (
                scan-IsClean fuel (place + 1) start a s (omega (arith, l)) (omega (arith, b))
                  (seen-next start place l w (not_here place other)))
        ]
      ]

  -- With no two delimiters side by side, what is read and what stays has none.
  split_bytes_clean :
      is_apart c bytes ≡ true
      → Without c buffer
      → (xs : List (List ℕ)) × ((buffer' : List ℕ) × ((split_bytes (c ∷ []) buffer incoming false
              ≡ some (xs, buffer'))
            × ((bytes ≡ delimited (c ∷ []) xs ++ buffer')
                × (All (Without c) xs × Without c buffer'))))
  unfolding split_bytes
  split_bytes_clean a w =
      let b = length buffer in
      let place = b - min b 0 in
      let fuel = suc (total (c ∷ []) buffer incoming) in
      let up_to : place - 0 ≡ b = omega arith in
      let p = scan-Splits (c ∷ []) buffer incoming fuel place 0 (omega arith) (record {
        fuelled = omega arith;
        enough = omega arith;
        before = omega arith;
        reaches = omega arith;
        is_start = inl refl;
      }) in
      let (clean, left) = subst IsClean p.returns (
        scan-IsClean fuel place 0 a (inl refl) (omega arith) (omega arith) (
          subst (λ k. Without c (take k bytes)) (sym up_to)
            (subst (Without c) (sym (take-length_append buffer incoming)) w))) in
      let rest = remainder_lem (c ∷ []) buffer incoming p.last p.is_start in
      (
        p.slices,
        (
          remainder (c ∷ []) buffer incoming p.last,
          (
            ap (with_remainder (c ∷ []) buffer incoming) p.returns,
            (
              p.text ∙ ap (λ ys. delimited (c ∷ []) p.slices ++ ys) (sym rest),
              (clean, subst (Without c) (sym rest) left),
            ),
          ),
        ),
      )

apart-prefix : (c : ℕ) (xs ys : List ℕ) → is_apart c (xs ++ ys) ≡ true → is_apart c xs ≡ true
unfolding is_apart
apart-prefix c [] ys h = refl
apart-prefix c (x ∷ []) ys h = refl
apart-prefix c (x ∷ y ∷ xs) ys h = ground (arith, apart-prefix c (y ∷ xs) ys, h)

apart-suffix : (c : ℕ) (xs ys : List ℕ) → is_apart c (xs ++ ys) ≡ true → is_apart c ys ≡ true
unfolding is_apart
apart-suffix c [] ys h = h
apart-suffix c (x ∷ []) [] h = refl
apart-suffix c (x ∷ []) (y ∷ ys) h = ground arith
apart-suffix c (x ∷ y ∷ xs) ys h = apart-suffix c (y ∷ xs) ys (ground arith)

-- With a marker of one byte that was not changed since the last call, none of these bytes in the buffer and no
-- two of them side by side in the stream, parseBytes reads the texts before each of them and keeps the rest in
-- the buffer, whatever chunks the stream comes in.
pub parse_chunks_cut :
    (c : ℕ) (chunks : List (List ℕ)) (buffer : List ℕ) (p : SplitParser)
    → p.split_marker ≡ c ∷ []
    → p.split_marker_changed ≡ false
    → Without c buffer
    → is_apart c (buffer ++ join chunks) ≡ true
    → parse_chunks chunks buffer p
      ≡ some
          (split_reads (split c (buffer ++ join chunks)).0 p, (split c (buffer ++ join chunks)).1)
unfolding parse_chunks
parse_chunks_cut c [] buffer p e h w a =
    ap (λ ys. some (record p { reads = ys }, buffer)) (sym (append-nil p.reads))
    ∙ ap (λ q. some (split_reads q.0 p, q.1))
        (sym (ap (split c) (append-nil buffer) ∙ split-Without c buffer w))
parse_chunks_cut c (incoming ∷ chunks) buffer p e h w a =
    let apart : is_apart c ((buffer ++ incoming) ++ join chunks) ≡ true =
      ap (is_apart c) (append_assoc buffer incoming (join chunks)) ∙ a in
    let (xs, (middle, (r, (text, (clean, left))))) =
      split_bytes_clean c buffer incoming (apart-prefix c (buffer ++ incoming) (join chunks) apart)
        w in
    let stream : buffer ++ (incoming ++ join chunks)
        ≡ delimited (c ∷ []) xs ++ (middle ++ join chunks) =
      sym (append_assoc buffer incoming (join chunks))
      ∙ ap (λ ys. ys ++ join chunks) text
      ∙ append_assoc (delimited (c ∷ []) xs) middle (join chunks) in
    let first : parse_bytes false incoming buffer p ≡ some (split_reads xs p, middle) =
      parse_marker c [] incoming buffer p e h
      ∙ ap (λ m. reads_of p (split_bytes m buffer incoming false)) e
      ∙ ap (reads_of p) r in
    let apart' : is_apart c (middle ++ join chunks) ≡ true =
      apart-suffix c (delimited (c ∷ []) xs) (middle ++ join chunks)
        (ap (is_apart c) (sym stream) ∙ a) in
    let cut = split c (middle ++ join chunks) in
    ap
      (λ o. elim o as (λ _. Option (SplitParser × List ℕ)) [
        | none ↦ none
        | some (p', b) ↦ parse_chunks chunks b p'
      ])
      first
    ∙ parse_chunks_cut c chunks middle (split_reads xs p) e h left apart'
    ∙ ap (λ ys. some (record p { reads = ys }, cut.1)) (append_assoc p.reads xs cut.0)
    ∙ ap (λ q. some (split_reads q.0 p, q.1))
        (sym (ap (split c) stream ∙ split-delimited c xs (middle ++ join chunks) clean))
