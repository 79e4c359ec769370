-- ===== src/DataStream/Reader.antt =====
-- `DataStream` of io/datastream.cpp: the buffer of a device and the parser that reads it. Parsers are told apart
-- by a number, for the pointer; a stream keeps the state of the one that it has.
use mcs_qs.Prelude.{
  ℕ, Bool, true, false, Option, none, some, List, [], ◌∷◌, ◌==◌, ◌+◌, if◌then◌else◌,
}
use mcs_qs.DataStream.{
  SplitParser, StdioCollector, parse_bytes, collect_bytes, stream_ended, collector_ended,
}

pub data Parser : Type 0 where
  split_parser : SplitParser → Parser
  stdio_collector : StdioCollector → Parser

abbrev as_split : Option (SplitParser × List ℕ) → Option (Parser × List ℕ)
as_split none = none
as_split (some (p, buffer)) = some (split_parser p, buffer)

abbrev as_collector : StdioCollector × List ℕ → Option (Parser × List ℕ)
as_collector (p, buffer) = some (stdio_collector p, buffer)

-- `DataStreamParser::parseBytes`
unfoldable pub parse : Bool → List ℕ → List ℕ → Parser → Option (Parser × List ℕ)
parse is_buffer incoming buffer (split_parser p) =
    as_split (parse_bytes is_buffer incoming buffer p)
parse is_buffer incoming buffer (stdio_collector p) = as_collector (collect_bytes incoming buffer p)

-- `DataStreamParser::streamEnded`
unfoldable pub end : List ℕ → Parser → Parser
end buffer (split_parser p) = split_parser (stream_ended buffer p)
end buffer (stdio_collector p) = stdio_collector (collector_ended buffer p)

pub record DataStream : Type 0 where
  pub reader : Option (ℕ × Parser)
  pub buffer : List ℕ
  pub reader_signals : ℕ

abbrev same_reader : Option (ℕ × Parser) → Option (ℕ × Parser) → Bool
same_reader none none = true
same_reader none (some r) = false
same_reader (some r) none = false
same_reader (some (i, p)) (some (j, q)) = i == j

abbrev pub parsed : ℕ → DataStream → Option (Parser × List ℕ) → Option DataStream
parsed i s none = none
parsed i s (some (p, buffer)) = some (record s { reader = some (i, p); buffer = buffer })

-- A new reader is given what the buffer has.
abbrev pub give_buffer : Option (ℕ × Parser) → List ℕ → DataStream → Option DataStream
give_buffer none buffer s = some s
give_buffer (some r) [] s = some s
give_buffer (some (i, p)) (x ∷ xs) s = parsed i s (parse true (x ∷ xs) (x ∷ xs) p)

unfoldable pub set_reader : Option (ℕ × Parser) → DataStream → Option DataStream
set_reader reader s =
    if same_reader reader s.reader
    then some s
    else give_buffer reader s.buffer
        (record s { reader = reader; reader_signals = s.reader_signals + 1 })

abbrev pub on_reader_destroyed : DataStream → DataStream
on_reader_destroyed s = record s { reader = none; reader_signals = s.reader_signals + 1 }

-- Without a reader the bytes stay in the device.
unfoldable pub on_bytes_available : List ℕ → DataStream → Option DataStream
on_bytes_available bytes s = elim s.reader [
  | none ↦ some s
  | some (i, p) ↦ parsed i s (parse false bytes s.buffer p)
]
