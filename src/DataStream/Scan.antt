-- ===== src/DataStream/Scan.antt =====
-- The loop of `SplitParser::parseBytes`: it ends, and no byte is lost.
use mcs_qs.Prelude.{
  ℕ, zero, suc, ◌+◌, ◌-◌, ◌≤◌, ◌<◌, ◌≡◌, refl, arith, true, false, Option, some, none, List, [],
  ◌∷◌, ◌++◌, length, drop, take-drop, leb, min, Bool-cases, inl, inr, ap, sym, ◌∙◌, subst, leb→le,
}
use mathlib.Core.List.{append_assoc}
use mcs_qs.DataStream.{matches, slice, emit, scan, remainder, split_bytes, with_remainder}
use mcs_qs.DataStream.Slices.{whole, matches_lem, IsStart, remainder_lem, between, slice_lem}

suc_left : (m n : ℕ) → suc m + n ≡ suc (m + n)
suc_left m n = omega arith

drop_nil : (n : ℕ) → drop {A = ℕ} n [] ≡ []
drop_nil zero = refl
drop_nil (suc n) = refl

drop-drop : (m n : ℕ) (xs : List ℕ) → drop m (drop n xs) ≡ drop (n + m) xs
drop-drop m zero xs = ap (λ k. drop k xs) (omega arith)
drop-drop m (suc n) [] = drop_nil m ∙ ap (λ k. drop k []) (sym (suc_left n m))
drop-drop m (suc n) (x ∷ xs) = drop-drop m n xs ∙ ap (λ k. drop k (x ∷ xs)) (sym (suc_left n m))

-- Texts, a marker behind each.
abbrev pub delimited : List ℕ → List (List ℕ) → List ℕ
delimited marker [] = []
delimited marker (x ∷ xs) = x ++ (marker ++ delimited marker xs)

module _ (marker buffer incoming : List ℕ) where
  abbrev pub total : ℕ
  total = length buffer + length incoming

  -- The bytes from `start` on are those of the slices, a marker behind each, and those behind the last.
  pub record Splits (start : ℕ) (out : Option (List (List ℕ) × ℕ)) : Type 0 where
    pub slices : List (List ℕ)
    pub last : ℕ
    pub returns : out ≡ some (slices, last)
    pub text :
        drop start (whole marker buffer incoming)
        ≡ delimited marker slices ++ drop last (whole marker buffer incoming)
    pub is_start : IsStart marker buffer incoming last

  -- Where the loop stands: `last` is the end of the last delimiter.
  pub record Stands (fuel place start : ℕ) : Type 0 where
    pub fuelled : 0 < fuel
    pub enough : total < fuel + place
    pub before : start ≤ place
    pub reaches : length buffer < place + length marker
    pub is_start : IsStart marker buffer incoming start

  pub scan_out : (place start : ℕ) → scan marker buffer incoming 0 place start ≡ none
  unfolding scan
  scan_out place start = refl

  pub scan_end :
      (fuel place start : ℕ)
      → leb (place + length marker) total ≡ false
      → scan marker buffer incoming (suc fuel) place start ≡ some ([], start)
  unfolding scan
  scan_end fuel place start e = rw (scan, e) refl

  pub scan_found :
      (fuel place start : ℕ)
      → leb (place + length marker) total ≡ true
      → matches marker buffer incoming marker place ≡ true
      → scan marker buffer incoming (suc fuel) place start
        ≡ emit marker buffer incoming
            (slice marker buffer incoming start place)
            (scan marker buffer incoming fuel (place + length marker + 1) (place + length marker))
  unfolding scan
  scan_found fuel place start e t = rw (scan, e, t) refl

  pub scan_on :
      (fuel place start : ℕ)
      → leb (place + length marker) total ≡ true
      → matches marker buffer incoming marker place ≡ false
      → scan marker buffer incoming (suc fuel) place start
        ≡ scan marker buffer incoming fuel (place + 1) start
  unfolding scan
  scan_on fuel place start e t = rw (scan, e, t) refl

  cut_at :
      (start place : ℕ)
      → start ≤ place
      → matches marker buffer incoming marker place ≡ true
      → drop start (whole marker buffer incoming)
        ≡ between marker buffer incoming start place
          ++ (marker ++ drop (place + length marker) (whole marker buffer incoming))
  cut_at start place l t =
      let w = whole marker buffer incoming in
      let there : start + (place - start) ≡ place = omega (arith, l) in
      take-drop (place - start) (drop start w)
      ∙ ap (λ ys. between marker buffer incoming start place ++ ys)
          (drop-drop (place - start) start w
            ∙ ap (λ k. drop k w) there
            ∙ matches_lem marker buffer incoming marker place t)

  Splits-emit :
      (start place : ℕ) (out : Option (List (List ℕ) × ℕ))
      → start ≤ place
      → IsStart marker buffer incoming start
      → matches marker buffer incoming marker place ≡ true
      → Splits (place + length marker) out
      → Splits start (emit marker buffer incoming (slice marker buffer incoming start place) out)
  Splits-emit start place out l s t p =
      let x = slice marker buffer incoming start place in
      let w = whole marker buffer incoming in
      record {
        slices = x ∷ p.slices;
        last = p.last;
        returns = ap (emit marker buffer incoming x) p.returns;
        text =
            cut_at start place l t
            ∙ ap (λ ys. ys ++ (marker ++ drop (place + length marker) w))
                (sym (slice_lem marker buffer incoming start place s l))
            ∙ ap (λ ys. x ++ (marker ++ ys)) p.text
            ∙ ap (λ ys. x ++ ys)
                (sym (append_assoc marker (delimited marker p.slices) (drop p.last w)))
            ∙ sym (append_assoc x (marker ++ delimited marker p.slices) (drop p.last w));
        is_start = p.is_start;
      }

  pub scan-Splits :
      (fuel place start : ℕ)
      → 0 < length marker
      → Stands fuel place start
      → Splits start (scan marker buffer incoming fuel place start)
  scan-Splits zero place start m s = absurd (omega (arith, s.fuelled))
  scan-Splits (suc fuel) place start m s = elim (Bool-cases (leb (place + length marker) total)) [
    | inr f ↦ record {
      slices = [];
      last = start;
      returns = scan_end fuel place start f;
      text = refl;
      is_start = s.is_start;
    }
    | inl t ↦
        let within : place + length marker ≤ total = leb→le _ _ t in
        elim (Bool-cases (matches marker buffer incoming marker place)) [
          | inl found ↦ subst (Splits start) (sym (scan_found fuel place start t found)) (
              Splits-emit start place
                (scan marker buffer incoming fuel (place + length marker + 1)
                  (place + length marker))
                s.before s.is_start found
                (scan-Splits fuel (place + length marker + 1) (place + length marker) m (record {
                  fuelled = omega (arith, m, s.enough, within);
                  enough = omega (arith, s.enough);
                  before = omega arith;
                  reaches = omega (arith, s.reaches);
                  is_start = inr (omega (arith, s.reaches));
                })))
          | inr other ↦ subst (Splits start) (sym (scan_on fuel place start t other)) (
              scan-Splits fuel (place + 1) start m (record {
                fuelled = omega (arith, m, s.enough, within);
                enough = omega (arith, s.enough);
                before = omega (arith, s.before);
                reaches = omega (arith, s.reaches);
                is_start = s.is_start;
              }))
        ]
  ]

  pub split_bytes_lem :
      0 < length marker
      → (xs : List (List ℕ)) × ((buffer' : List ℕ) × ((split_bytes marker buffer incoming false
              ≡ some (xs, buffer'))
            × (buffer ++ incoming ≡ delimited marker xs ++ buffer')))
  unfolding split_bytes
  split_bytes_lem m =
      let b = length buffer in
      let place = b - min b (length marker - 1) in
      let p = scan-Splits (suc total) place 0 m (record {
        fuelled = omega arith;
        enough = omega arith;
        before = omega arith;
        reaches = omega (arith, m);
        is_start = inl refl;
      }) in
      (
        p.slices,
        (
          remainder marker buffer incoming p.last,
          (
            ap (with_remainder marker buffer incoming) p.returns,
            p.text
                ∙ ap (λ ys. delimited marker p.slices ++ ys)
                    (sym (remainder_lem marker buffer incoming p.last p.is_start)),
          ),
        ),
      )
