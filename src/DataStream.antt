-- ===== src/DataStream.antt =====
-- The stream parsers of io/datastream.cpp. A place in the bytes of `buffer` and `incoming` is a number from the
-- buffer's first byte on; the source counts from the first incoming byte. Slices are bytes: their conversion to
-- QString is left out.
pub mod Slices
pub mod Scan
pub mod Chunks
pub mod Cut
pub mod Lines
pub mod Reader
use mcs_qs.Prelude.{
  ℕ, zero, suc, ◌+◌, ◌-◌, Bool, true, false, ◌&&◌, Option, none, some, List, [], ◌∷◌, ◌++◌, length,
  get_elem?, take, drop, ltb, leb, min, ◌==◌, if◌then◌else◌,
}
use mcs_qs.Log.{same_bytes}

module _ (marker buffer incoming : List ℕ) where
  -- The byte of the buffer or of the incoming bytes.
  unfoldable pub byte_at : ℕ → Option ℕ
  byte_at i =
      if ltb i (length buffer) then get_elem? buffer i else get_elem? incoming (i - length buffer)

  abbrev pub is_byte : Option ℕ → ℕ → Bool
  is_byte none c = false
  is_byte (some x) c = x == c

  -- The loop over the marker's bytes.
  unfoldable pub matches : List ℕ → ℕ → Bool
  matches [] i = true
  matches (c ∷ cs) i = is_byte (byte_at i) c && matches cs (suc i)

  -- The bytes between two delimiters: of the buffer, if none was found yet, and of the incoming bytes.
  unfoldable pub slice : ℕ → ℕ → List ℕ
  slice start place =
      let blen = length buffer in
      let from = if ltb blen start then start else blen in
      (if ltb start blen then take (min blen place) buffer else [])
      ++ (if ltb blen place then take (place - from) (drop (from - blen) incoming) else [])

  abbrev pub emit : List ℕ → Option (List (List ℕ) × ℕ) → Option (List (List ℕ) × ℕ)
  emit x none = none
  emit x (some (xs, start)) = some (x ∷ xs, start)

  -- The loop over the places: the slices read, and where the last delimiter ends. A delimiter that is found
  -- moves the place behind it, and then the loop's own step by one more.
  unfoldable pub scan : ℕ → ℕ → ℕ → Option (List (List ℕ) × ℕ)
  scan zero place start = none
  scan (suc fuel) place start =
      elim (leb (place + length marker) (length buffer + length incoming)) [
        | false ↦ some ([], start)
        | true ↦ elim (matches marker place) [
          | true ↦
              emit (slice start place)
                (scan fuel (place + length marker + 1) (place + length marker))
          | false ↦ scan fuel (place + 1) start
        ]
      ]

  -- What stays in the buffer.
  unfoldable pub remainder : ℕ → List ℕ
  remainder start =
      if ltb start (length buffer)
      then buffer ++ incoming
      else drop (start - length buffer) incoming

  abbrev pub with_remainder : Option (List (List ℕ) × ℕ) → Option (List (List ℕ) × List ℕ)
  with_remainder none = none
  with_remainder (some (xs, start)) = some (xs, remainder start)

  -- Each round moves the place, so this fuel is enough. `is_buffer`: the incoming bytes are the buffer itself.
  unfoldable pub split_bytes : Bool → Option (List (List ℕ) × List ℕ)
  split_bytes is_buffer =
      let blen = length buffer in
      with_remainder (
        scan (suc (blen + length incoming)) (blen - min blen (length marker - 1))
          (if is_buffer then blen else 0))

pub record SplitParser : Type 0 where
  pub split_marker : List ℕ
  pub split_marker_changed : Bool
  pub reads : List (List ℕ)
  pub marker_signals : ℕ

abbrev pub split_reads : List (List ℕ) → SplitParser → SplitParser
split_reads xs p = record p { reads = p.reads ++ xs }

abbrev pub reads_of : SplitParser → Option (List (List ℕ) × List ℕ) → Option (SplitParser × List ℕ)
reads_of p none = none
reads_of p (some (xs, buffer)) = some (split_reads xs p, buffer)

-- Without a marker. If the incoming bytes are the buffer, clearing it clears them.
unfoldable pub read_whole : Bool → List ℕ → List ℕ → SplitParser → SplitParser
read_whole is_buffer incoming [] p = split_reads (incoming ∷ []) p
read_whole is_buffer incoming (x ∷ buffer) p =
    split_reads ((x ∷ buffer) ∷ (if is_buffer then [] else incoming) ∷ []) p

-- The marker is not empty, and the buffer was searched for it.
abbrev pub parse_marked : Bool → List ℕ → SplitParser → List ℕ → Option (SplitParser × List ℕ)
parse_marked is_buffer incoming p buffer =
    reads_of p
      (split_bytes p.split_marker buffer (if is_buffer then buffer else incoming) is_buffer)

abbrev pub then_parse :
    Bool → List ℕ → Option (SplitParser × List ℕ) → Option (SplitParser × List ℕ)
then_parse is_buffer incoming none = none
then_parse is_buffer incoming (some (p, buffer)) = parse_marked is_buffer incoming p buffer

-- With an empty marker, with one that was changed, and with one that was not.
abbrev pub parse_by :
    List ℕ → Bool → Bool → List ℕ → List ℕ → SplitParser → Option (SplitParser × List ℕ)
parse_by [] changed is_buffer incoming buffer p = some (read_whole is_buffer incoming buffer p, [])
parse_by (c ∷ cs) true is_buffer incoming buffer p =
    then_parse is_buffer incoming
      (parse_marked true buffer (record p { split_marker_changed = false }) buffer)
parse_by (c ∷ cs) false is_buffer incoming buffer p = parse_marked is_buffer incoming p buffer

-- `SplitParser::parseBytes`
unfoldable pub parse_bytes : Bool → List ℕ → List ℕ → SplitParser → Option (SplitParser × List ℕ)
parse_bytes is_buffer incoming buffer p =
    parse_by p.split_marker p.split_marker_changed is_buffer incoming buffer p

unfoldable pub stream_ended : List ℕ → SplitParser → SplitParser
stream_ended [] p = p
stream_ended (x ∷ buffer) p = split_reads ((x ∷ buffer) ∷ []) p

unfoldable pub set_split_marker : List ℕ → SplitParser → SplitParser
set_split_marker marker p = if same_bytes marker p.split_marker then p else record p {
  split_marker = marker;
  split_marker_changed = true;
  marker_signals = p.marker_signals + 1;
}

pub record StdioCollector : Type 0 where
  pub wait_for_end : Bool
  pub collected : List ℕ
  pub data_signals : ℕ
  pub finished_signals : ℕ
  pub wait_signals : ℕ

abbrev pub collect : List ℕ → StdioCollector → StdioCollector
collect buffer p = record p { collected = buffer; data_signals = p.data_signals + 1 }

-- `StdioCollector::parseBytes`
unfoldable pub collect_bytes : List ℕ → List ℕ → StdioCollector → StdioCollector × List ℕ
collect_bytes incoming buffer p =
    let all = buffer ++ incoming in (if p.wait_for_end then p else collect all p, all)

unfoldable pub collector_ended : List ℕ → StdioCollector → StdioCollector
collector_ended buffer p =
    let p' : StdioCollector = if p.wait_for_end then collect buffer p else p in
    record p' { finished_signals = p'.finished_signals + 1 }

unfoldable pub set_wait_for_end : Bool → StdioCollector → StdioCollector
set_wait_for_end true p =
    if p.wait_for_end
    then p
    else record p { wait_for_end = true; wait_signals = p.wait_signals + 1 }
set_wait_for_end false p =
    if p.wait_for_end
    then record p { wait_for_end = false; wait_signals = p.wait_signals + 1 }
    else p
