-- ===== src/Greetd/Socket.antt =====
-- `GreetdConnection::onSocketReady` from the bytes of the socket on: a length, a text of that length, both
-- or neither. `from_json` stands for what the source takes from the JSON document of a text.
use mcs_qs.Prelude.{ℕ, zero, suc, Bool, true, false, Option, none, some, List, length}
use mcs_qs.Prelude.Int.{ℤ, pos, negsuc}
use mcs_qs.StreamReader.{
  Device, StreamReader, start_transaction, read_i32, read_bytes, commit_transaction,
}
use mcs_qs.StreamReader.Reading.{stream}
use mcs_qs.Greetd.{Request, Response, Connection, handle}

module _ (dev : Device) where
  -- The commit of a round, and its text.
  abbrev pub committed : List ℕ × StreamReader dev → Bool × (List ℕ × StreamReader dev)
  committed (text, r) = let (ok, r') = commit_transaction dev r in (ok, (text, r'))

  -- What Qt makes of a negative length is left open: `none`.
  abbrev pub sized : ℤ × StreamReader dev → Option (Bool × (List ℕ × StreamReader dev))
  sized (negsuc n, r) = none
  sized (pos n, r) = some (committed (read_bytes dev n r))

  unfoldable pub read_text : StreamReader dev → Option (Bool × (List ℕ × StreamReader dev))
  read_text r = sized (read_i32 dev (start_transaction dev r))

  module _ (compact : Request → List ℕ) (from_json : List ℕ → Response) where
    -- What a round does with the text, `rest` being the next rounds.
    abbrev pub handle_text :
        (Connection → StreamReader dev → Option (Connection × StreamReader dev))
        → Connection
        → Option (Bool × (List ℕ × StreamReader dev))
        → Option (Connection × StreamReader dev)
    handle_text rest c none = none
    handle_text rest c (some (false, (text, r))) = some (c, r)
    handle_text rest c (some (true, (text, r))) =
        let (c', more) = handle compact (from_json text) c in
        elim more [ true ↦ rest c' r | false ↦ some (c', r) ]

    unfoldable pub rounds :
        ℕ → Connection → StreamReader dev → Option (Connection × StreamReader dev)
    rounds zero c r = none
    rounds (suc fuel) c r = handle_text (rounds fuel) c (read_text r)

    -- Each round that goes on takes the four bytes of a length at least, so this fuel is enough.
    unfoldable pub socket_ready :
        Connection → StreamReader dev → Option (Connection × StreamReader dev)
    socket_ready c r = rounds (suc (length (stream dev r))) c r
