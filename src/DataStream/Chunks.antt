-- ===== src/DataStream/Chunks.antt =====
-- Chunks of a stream, parsed one after the other: no byte is lost.
use mcs_qs.Prelude.{
  ℕ, ◌≡◌, refl, arith, false, Option, some, none, List, [], ◌∷◌, ◌++◌, ap, sym, ◌∙◌,
}
use mathlib.Core.List.{append_assoc, append-nil}
use mcs_qs.StreamReader.Transactions.{join}
use mcs_qs.DataStream.{
  SplitParser, parse_bytes, parse_by, parse_marked, split_reads, reads_of, split_bytes,
}
use mcs_qs.DataStream.Scan.{delimited, split_bytes_lem}

pub delimited-append :
    (marker : List ℕ) (xs ys : List (List ℕ))
    → delimited marker (xs ++ ys) ≡ delimited marker xs ++ delimited marker ys
delimited-append marker [] ys = refl
delimited-append marker (x ∷ xs) ys =
    ap (λ zs. x ++ (marker ++ zs)) (delimited-append marker xs ys)
    ∙ ap (λ zs. x ++ zs) (sym (append_assoc marker (delimited marker xs) (delimited marker ys)))
    ∙ sym (append_assoc x (marker ++ delimited marker xs) (delimited marker ys))

pub parse_marker :
    (c : ℕ) (cs incoming buffer : List ℕ) (p : SplitParser)
    → p.split_marker ≡ c ∷ cs
    → p.split_marker_changed ≡ false
    → parse_bytes false incoming buffer p ≡ parse_marked false incoming p buffer
unfolding parse_bytes
parse_marker c cs incoming buffer p e h =
    ap (λ m. parse_by m p.split_marker_changed false incoming buffer p) e
    ∙ ap (λ b. parse_by (c ∷ cs) b false incoming buffer p) h

-- Chunks of a stream, one after the other.
unfoldable pub parse_chunks : List (List ℕ) → List ℕ → SplitParser → Option (SplitParser × List ℕ)
parse_chunks [] buffer p = some (p, buffer)
parse_chunks (incoming ∷ chunks) buffer p = elim (parse_bytes false incoming buffer p) [
  | none ↦ none
  | some (p', buffer') ↦ parse_chunks chunks buffer' p'
]

-- With a marker that was not changed since the last call, parseBytes ends for all the chunks of a stream, and no
-- byte is lost: the buffer and the chunks are the texts that were read, the marker behind each, and what stays in
-- the buffer.
pub parse_chunks_lem :
    (c : ℕ) (cs : List ℕ) (chunks : List (List ℕ)) (buffer : List ℕ) (p : SplitParser)
    → p.split_marker ≡ c ∷ cs
    → p.split_marker_changed ≡ false
    → (xs : List (List ℕ)) × ((buffer' : List ℕ) × ((parse_chunks chunks buffer p
            ≡ some (split_reads xs p, buffer'))
          × (buffer ++ join chunks ≡ delimited (c ∷ cs) xs ++ buffer')))
unfolding parse_chunks
parse_chunks_lem c cs [] buffer p e h = (
  [],
  (
    buffer,
    (
      ap (λ ys. some (record p { reads = ys }, buffer)) (sym (append-nil p.reads)),
      append-nil buffer,
    ),
  ),
)
parse_chunks_lem c cs (incoming ∷ chunks) buffer p e h =
    let marker = c ∷ cs in
    let (xs, (middle, (r, text))) = split_bytes_lem marker buffer incoming (omega arith) in
    let first : parse_bytes false incoming buffer p ≡ some (split_reads xs p, middle) =
      parse_marker c cs incoming buffer p e h
      ∙ ap (λ m. reads_of p (split_bytes m buffer incoming false)) e
      ∙ ap (reads_of p) r in
    let (ys, (buffer', (r', text'))) = parse_chunks_lem c cs chunks middle (split_reads xs p) e h in
    (
      xs ++ ys,
      (
        buffer',
        (
          ap
                (λ o. elim o as (λ _. Option (SplitParser × List ℕ)) [
                  | none ↦ none
                  | some (p', b) ↦ parse_chunks chunks b p'
                ])
                first
              ∙ r'
              ∙ ap (λ zs. some (record p { reads = zs }, buffer')) (append_assoc p.reads xs ys),
          sym (append_assoc buffer incoming (join chunks))
              ∙ ap (λ zs. zs ++ join chunks) text
              ∙ append_assoc (delimited marker xs) middle (join chunks)
              ∙ ap (λ zs. delimited marker xs ++ zs) text'
              ∙ sym (append_assoc (delimited marker xs) (delimited marker ys) buffer')
              ∙ ap (λ zs. zs ++ buffer') (sym (delimited-append marker xs ys)),
        ),
      ),
    )
