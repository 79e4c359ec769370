-- ===== src/Examples/Readers.antt =====
-- A device that hands out three bytes at most at a time, with two frames and half of a third.
use mcs_qs.Prelude.{
  ℕ, ◌≡◌, refl, arith, true, false, some, List, [], ◌∷◌, ◌++◌, map, length, take, drop, take-drop,
  min, ◌==◌, if◌then◌else◌, length-take,
}
use mcs_qs.StreamReader.{Device, StreamReader}
use mcs_qs.StreamReader.Reading.{stream}
use mcs_qs.StreamReader.Prompt.{Prompt}
use mcs_qs.StreamReader.Transactions.{bytes_op, until_op, transaction, IsAtomic, transaction_lem}
use mcs_qs.Greetd.{
  Request, Response, success, other_response, Connection, authenticating, new_connection,
  on_socket_ready,
}
use mcs_qs.Greetd.Socket.{socket_ready}
use mcs_qs.Greetd.Framing.{frames}
use mcs_qs.Greetd.Responses.{socket_ready_lem}

abbrev slow : Device
slow = record {
  State = List ℕ;
  bytes_available = λ s. min 3 (length s);
  read = λ n s. (take n s, drop n s);
  pending = λ s. s;
  read_splits = λ n s. take-drop n s;
}

empty_list : (s : List ℕ) → min 3 (length s) ≡ 0 → s ≡ []
empty_list [] h = refl
empty_list (x ∷ xs) h = absurd (omega (arith, h))

slow-Prompt : Prompt slow
slow-Prompt = record {
  none_left = empty_list;
  gives = λ s h. omega (arith, h, length-take (min 3 (length s)) s);
}

abbrev texts : List (List ℕ)
texts = (1 ∷ 2 ∷ []) ∷ (3 ∷ []) ∷ []

abbrev cut_off : List ℕ
cut_off = 2 ∷ 0 ∷ 0 ∷ 0 ∷ 7 ∷ []

abbrev reader : StreamReader slow
reader = record { device = frames texts ++ cut_off; buffer = []; cursor = 0; failed = false }

transaction_example :
    IsAtomic slow
      (bytes_op 4 ∷ until_op 2 ∷ [])
      reader
      (transaction slow (bytes_op 4 ∷ until_op 2 ∷ []) reader)
transaction_example = transaction_lem slow (bytes_op 4 ∷ until_op 2 ∷ []) reader

abbrev parsed : List ℕ → Response
parsed text = if length text == 1 then success else other_response

abbrev printed : Request → List ℕ
printed r = 123 ∷ 125 ∷ []

abbrev asking : Connection
asking = record (new_connection (1 ∷ [])) { state = authenticating; connected = true }

socket_example :
    (left : List (List ℕ)) × ((r' : StreamReader slow) × ((socket_ready slow printed parsed asking
            reader
          ≡ some ((on_socket_ready printed (map parsed texts) asking).0, r'))
        × ((map parsed left ≡ (on_socket_ready printed (map parsed texts) asking).1)
            × (stream slow r' ≡ frames left ++ cut_off))))
socket_example =
    socket_ready_lem slow slow-Prompt printed parsed texts cut_off (7 ∷ 8 ∷ []) (8 ∷ []) asking
      reader (omega arith, (omega arith, tt)) refl (omega arith) (omega arith) refl
