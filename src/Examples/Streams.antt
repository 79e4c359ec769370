-- ===== src/Examples/Streams.antt =====
-- Lines in chunks, and a marker of two bytes.
use mcs_qs.Prelude.{ℕ, ◌≡◌, refl, true, false, none, some, List, [], ◌∷◌, ◌++◌}
use mcs_qs.DataStream.{
  SplitParser, StdioCollector, collect_bytes, split_reads, parse_bytes, split_bytes, scan, matches,
  byte_at, slice, remainder,
}
use mcs_qs.DataStream.Reader.{stdio_collector, set_reader, parse}
use mcs_qs.DataStream.Cut.{split, is_apart}
use mcs_qs.DataStream.Scan.{delimited}
use mcs_qs.DataStream.Chunks.{parse_chunks, parse_chunks_lem}
use mcs_qs.DataStream.Lines.{parse_chunks_cut}
use mcs_qs.StreamReader.Transactions.{join}

abbrev parser : List ℕ → SplitParser
parser marker = record {
  split_marker = marker;
  split_marker_changed = false;
  reads = [];
  marker_signals = 0;
}

abbrev arrow : List ℕ
arrow = 45 ∷ 62 ∷ []

-- `a-`, `>b->`
abbrev arrows : List (List ℕ)
arrows = (97 ∷ 45 ∷ []) ∷ (62 ∷ 98 ∷ 45 ∷ 62 ∷ []) ∷ []

chunks_example :
    (xs : List (List ℕ)) × ((buffer' : List ℕ) × ((parse_chunks arrows [] (parser arrow)
          ≡ some (split_reads xs (parser arrow), buffer'))
        × ([] ++ join arrows ≡ delimited arrow xs ++ buffer')))
chunks_example = parse_chunks_lem 45 (62 ∷ []) arrows [] (parser arrow) refl refl

-- `a`, line feed, `b`; line feed, `c`
abbrev lines : List (List ℕ)
lines = (97 ∷ 10 ∷ 98 ∷ []) ∷ (10 ∷ 99 ∷ []) ∷ []

apart : is_apart 10 ([] ++ join lines) ≡ true
unfolding is_apart
apart = refl

lines_example :
    parse_chunks lines [] (parser (10 ∷ []))
    ≡ some (
      split_reads (split 10 ([] ++ join lines)).0 (parser (10 ∷ [])),
      (split 10 ([] ++ join lines)).1,
    )
lines_example = parse_chunks_cut 10 lines [] (parser (10 ∷ [])) refl refl tt apart

-- `a`, two line feeds, `b`, line feed: in one chunk, and cut between the two.
together :
    parse_chunks ((97 ∷ 10 ∷ 10 ∷ 98 ∷ 10 ∷ []) ∷ []) [] (parser (10 ∷ []))
    ≡ some (split_reads ((97 ∷ []) ∷ (10 ∷ 98 ∷ []) ∷ []) (parser (10 ∷ [])), [])
unfolding parse_chunks parse_bytes split_bytes scan matches byte_at slice remainder
together = refl

in_two :
    parse_chunks ((97 ∷ 10 ∷ []) ∷ (10 ∷ 98 ∷ 10 ∷ []) ∷ []) [] (parser (10 ∷ []))
    ≡ some (split_reads ((97 ∷ []) ∷ [] ∷ (98 ∷ []) ∷ []) (parser (10 ∷ [])), [])
unfolding parse_chunks parse_bytes split_bytes scan matches byte_at slice remainder
in_two = refl

-- After the marker was changed to `ab`, a buffer `b-a` is searched as if it stood behind itself.
abbrev changed : SplitParser
changed = record (parser (97 ∷ 98 ∷ [])) { split_marker_changed = true }

across :
    parse_bytes false (99 ∷ []) (98 ∷ 45 ∷ 97 ∷ []) changed
    ≡ some
        (split_reads ([] ∷ []) (record changed { split_marker_changed = false }), 45 ∷ 97 ∷ 99 ∷ [])
unfolding parse_bytes split_bytes scan matches byte_at slice remainder
across = refl

-- A collector that takes over the rest of another parser gets it twice.
abbrev collector : StdioCollector
collector = record {
  wait_for_end = false;
  collected = [];
  data_signals = 0;
  finished_signals = 0;
  wait_signals = 0;
}

twice :
    set_reader
      (some (1, stdio_collector collector))
      (record { reader = none; buffer = 97 ∷ 98 ∷ []; reader_signals = 0 })
    ≡ some (record {
      reader = some (
        1,
        stdio_collector (record collector { collected = 97 ∷ 98 ∷ 97 ∷ 98 ∷ []; data_signals = 1 }),
      );
      buffer = 97 ∷ 98 ∷ 97 ∷ 98 ∷ [];
      reader_signals = 1;
    })
unfolding set_reader parse collect_bytes
twice = refl
