-- ===== src/Greetd/Responses.antt =====
-- What `onSocketReady` does with the responses in a socket.
use mcs_qs.Prelude.{
  ℕ, zero, suc, ◌^◌, ◌≤◌, ◌<◌, ◌≡◌, refl, arith, Bool, true, false, Option, some, List, [], ◌∷◌,
  ◌++◌, length, length-append, map, All, ap, sym, ◌∙◌, subst, if◌then◌else◌,
}
use mathlib.Core.List.{append_assoc}
use mcs_qs.StreamReader.{Device, StreamReader}
use mcs_qs.StreamReader.Reading.{stream}
use mcs_qs.StreamReader.Prompt.{Prompt}
use mcs_qs.Greetd.{Request, Response, Connection, handle, on_socket_ready}
use mcs_qs.Greetd.Socket.{handle_text, rounds, socket_ready}
use mcs_qs.Greetd.Framing.{framed, frames, read_text_frame, read_text-Waits}

module _ (dev : Device) (prompt : Prompt dev) (compact : Request → List ℕ)
    (from_json : List ℕ → Response) where
  abbrev AreShort : List (List ℕ) → Type 0
  AreShort texts = All (λ text. length text < 2 ^ 31) texts

  -- The rounds do what the handler of responses does, to `done`, and leave the frames of the responses
  -- that it leaves and the rest of the stream.
  record Handles (done : Connection × List Response) (rest : List ℕ)
      (out : Option (Connection × StreamReader dev)) : Type 0 where
    left : List (List ℕ)
    reader : StreamReader dev
    returns : out ≡ some (done.0, reader)
    unhandled : map from_json left ≡ done.1
    remains : stream dev reader ≡ frames left ++ rest

  after_round :
      (texts : List (List ℕ)) (rest : List ℕ)
      (again : Connection → StreamReader dev → Option (Connection × StreamReader dev))
      (r : StreamReader dev) (out : Connection × Bool)
      → stream dev r ≡ frames texts ++ rest
      → Handles (on_socket_ready compact (map from_json texts) out.0) rest (again out.0 r)
      → Handles
          (if out.1
            then on_socket_ready compact (map from_json texts) out.0
            else (out.0, map from_json texts))
          rest
          (elim out.1 as (λ _. Option (Connection × StreamReader dev)) [
            | true ↦ again out.0 r
            | false ↦ some (out.0, r)
          ])
  after_round texts rest again r (c, true) s ih = ih
  after_round texts rest again r (c, false) s ih = record {
    left = texts;
    reader = r;
    returns = refl;
    unhandled = refl;
    remains = s;
  }

  rounds-Handles :
      (texts : List (List ℕ)) (rest text more : List ℕ) (fuel : ℕ) (c : Connection)
      (r : StreamReader dev)
      → AreShort texts
      → rest ++ more ≡ framed text
      → 0 < length more
      → length text < 2 ^ 31
      → stream dev r ≡ frames texts ++ rest
      → length texts < fuel
      → Handles
          (on_socket_ready compact (map from_json texts) c)
          rest
          (rounds dev compact from_json fuel c r)
  unfolding rounds on_socket_ready
  rounds-Handles texts rest text more zero c r a e h short s f = absurd (omega arith)
  rounds-Handles [] rest text more (suc fuel) c r a e h short s f =
      let (x, (r', (w, same))) =
        read_text-Waits dev prompt text more r (ap (λ ys. ys ++ more) s ∙ e) h short in
      record {
        left = [];
        reader = r';
        returns = ap (handle_text dev compact from_json (rounds dev compact from_json fuel) c) w;
        unhandled = refl;
        remains = same ∙ s;
      }
  rounds-Handles (t ∷ texts) rest text more (suc fuel) c r (b, a) e h short s f =
      let again = rounds dev compact from_json fuel in
      let done = on_socket_ready compact (map from_json (t ∷ texts)) c in
      let (r', (w, same)) =
        read_text_frame dev prompt t (frames texts ++ rest) r b
          (s ∙ append_assoc (framed t) (frames texts) rest) in
      let (c', b') = handle compact (from_json t) c in
      subst (λ q. Handles done rest (handle_text dev compact from_json again c q)) (sym w)
        (after_round texts rest again r' (handle compact (from_json t) c) same
          (rounds-Handles texts rest text more fuel c' r' a e h short same (omega arith)))

  more_bytes :
      (texts : List (List ℕ)) (rest : List ℕ) → length texts ≤ length (frames texts ++ rest)
  more_bytes [] rest = omega arith
  more_bytes (t ∷ texts) rest = omega (
    arith,
    more_bytes texts rest,
    length-append (framed t ++ frames texts) rest,
    length-append t (frames texts),
    length-append (frames texts) rest,
  )

  -- On a socket that hands out what it has, onSocketReady ends for every run of whole frames, of texts below
  -- 2 GiB, followed by a frame that is cut off, which may be empty. It leaves the connection as the same
  -- responses one after the other do, and of the stream what they do not handle and the cut-off frame.
  pub socket_ready_lem :
      (texts : List (List ℕ)) (rest text more : List ℕ) (c : Connection) (r : StreamReader dev)
      → All (λ t. length t < 2 ^ 31) texts
      → rest ++ more ≡ framed text
      → 0 < length more
      → length text < 2 ^ 31
      → stream dev r ≡ frames texts ++ rest
      → (left : List (List ℕ)) × ((r' : StreamReader dev) × ((socket_ready dev compact from_json c r
              ≡ some ((on_socket_ready compact (map from_json texts) c).0, r'))
            × ((map from_json left ≡ (on_socket_ready compact (map from_json texts) c).1)
                × (stream dev r' ≡ frames left ++ rest))))
  unfolding socket_ready
  socket_ready_lem texts rest text more c r a e h short s =
      let p =
        rounds-Handles texts rest text more (suc (length (stream dev r))) c r a e h short s
          (omega (arith, ap length s, more_bytes texts rest)) in
      (p.left, (p.reader, (p.returns, (p.unhandled, p.remains))))
