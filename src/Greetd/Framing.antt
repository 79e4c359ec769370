-- ===== src/Greetd/Framing.antt =====
-- What a round of `onSocketReady` makes of a frame in a socket.
use mcs_qs.Prelude.{
  ℕ, ◌^◌, ◌<◌, ◌≡◌, refl, arith, Bool, true, false, Option, some, List, [], ◌∷◌, ◌++◌, length,
  length-append, length-take, drop, take-drop, same_cut, inl, inr, ap, sym, ◌∙◌, subst,
}
use mathlib.Core.List.{append_assoc}
use mcs_qs.Prelude.Int.{ℤ, pos}
use mcs_qs.Log.Bytes.{u32, from_le}
use mcs_qs.StreamReader.{
  Device, StreamReader, start_transaction, read_bytes, read_i32, commit_transaction, to_i32,
  integer,
}
use mcs_qs.StreamReader.Reading.{stream, consumed, Outcome, Reads, IsOpen, read_bytes-Outcome}
use mcs_qs.StreamReader.Prompt.{Prompt, read_bytes-Reads}
use mcs_qs.Greetd.Socket.{committed, sized, read_text}

-- A text as the daemon sends it.
abbrev pub framed : List ℕ → List ℕ
framed text = u32 (length text) ++ text

abbrev pub frames : List (List ℕ) → List ℕ
frames [] = []
frames (text ∷ texts) = framed text ++ frames texts

to_i32-u32 : (n : ℕ) → n < 2 ^ 31 → to_i32 (from_le (u32 n)) ≡ pos n
unfolding to_i32 from_le
to_i32-u32 n h = ground arith

module _ (dev : Device) (prompt : Prompt dev) where
  -- What is left of a stream behind the cursor.
  abbrev ahead : StreamReader dev → List ℕ
  ahead r = drop r.cursor r.buffer ++ dev.pending r.device

  stream_split : (r : StreamReader dev) → consumed dev r ++ ahead r ≡ stream dev r
  stream_split r =
      sym (append_assoc (consumed dev r) (drop r.cursor r.buffer) (dev.pending r.device))
      ∙ ap (λ b. b ++ dev.pending r.device) (sym (take-drop r.cursor r.buffer))

  length-consumed : (r : StreamReader dev) → IsOpen dev r → length (consumed dev r) ≡ r.cursor
  length-consumed r o = omega (arith, length-take r.cursor r.buffer, o.within)

  opened : (x : List ℕ) (r r' : StreamReader dev) → Reads dev x r r' → IsOpen dev r'
  opened x r r' g = record { within = g.within; ok = g.ok }

  next_left : (x : List ℕ) (r r' : StreamReader dev) → Reads dev x r r' → x ++ ahead r' ≡ ahead r
  next_left x r r' g =
      let split' : consumed dev r ++ (x ++ ahead r') ≡ consumed dev r ++ ahead r =
        sym (append_assoc (consumed dev r) x (ahead r'))
        ∙ ap (λ ys. ys ++ ahead r') (sym g.consumed_then)
        ∙ stream_split r'
        ∙ g.same_stream
        ∙ sym (stream_split r) in
      (same_cut (consumed dev r) (x ++ ahead r') (consumed dev r) (ahead r) refl split').1

  read_bytes_failed : (r : StreamReader dev) → r.failed ≡ true → read_bytes dev 0 r ≡ ([], r)
  unfolding read_bytes
  read_bytes_failed r e = simp e refl

  -- A read of the next bytes of the stream gives them.
  reads_next :
      (x rest : List ℕ) (r : StreamReader dev)
      → IsOpen dev r
      → ahead r ≡ x ++ rest
      → (r' : StreamReader dev) × ((read_bytes dev (length x) r ≡ (x, r'))
          × (IsOpen dev r' × (ahead r' ≡ rest)))
  reads_next x rest r o e =
      let (g, l) = read_bytes-Reads dev prompt (length x) r o (
        omega (
          arith,
          ap length (stream_split r),
          length-append (consumed dev r) (ahead r),
          length-consumed r o,
          ap length e,
          length-append x rest,
        )) in
      let (y, r') = read_bytes dev (length x) r in
      let (same, left) = same_cut y (ahead r') x rest l (next_left y r r' g ∙ e) in
      (r', (ap (λ ys. (ys, r')) same, (opened y r r' g, left)))

  commit_open :
      (text : List ℕ) (r : StreamReader dev)
      → IsOpen dev r
      → committed dev (text, r)
        ≡ (true, (text, record r { buffer = drop r.cursor r.buffer; cursor = 0; failed = false }))
  unfolding commit_transaction
  commit_open text r o = simp o.ok refl

  read_i32_lem :
      (x : List ℕ) (n : ℤ) (r r' : StreamReader dev)
      → read_bytes dev 4 r ≡ (x, r')
      → to_i32 (from_le x) ≡ n
      → read_i32 dev r ≡ (n, r')
  unfolding read_i32
  read_i32_lem x n r r' e k = ap (integer dev) e ∙ ap (λ z. (z, r')) k

  -- A round that finds a frame takes it.
  pub read_text_frame :
      (text rest : List ℕ) (r : StreamReader dev)
      → length text < 2 ^ 31
      → stream dev r ≡ framed text ++ rest
      → (r' : StreamReader dev) × ((read_text dev r ≡ some (true, (text, r')))
          × (stream dev r' ≡ rest))
  unfolding read_text
  read_text_frame text rest r short e =
      let start = start_transaction dev r in
      let (r1, (e1, (o1, a1))) =
        reads_next (u32 (length text)) (text ++ rest) start
          (record { within = omega arith; ok = refl }) e in
      let (r2, (e2, (o2, a2))) = reads_next text rest r1 o1 a1 in
      (
        record r2 { buffer = drop r2.cursor r2.buffer; cursor = 0; failed = false },
        (
          ap (sized dev) (
                read_i32_lem (u32 (length text)) (pos (length text)) start r1 e1
                  (to_i32-u32 (length text) short))
              ∙ ap (λ q. some (committed dev q)) e2
              ∙ ap some (commit_open text r2 o2),
          a2,
        ),
      )

  -- A round that does not get its bytes leaves the stream.
  abbrev pub Waits : StreamReader dev → Option (Bool × (List ℕ × StreamReader dev)) → Type 0
  Waits r out =
      (text : List ℕ) × ((r' : StreamReader dev) × ((out ≡ some (false, (text, r')))
          × (stream dev r' ≡ stream dev r)))

  commit-Waits :
      (text : List ℕ) (r r1 : StreamReader dev)
      → r1.failed ≡ true
      → stream dev r1 ≡ stream dev r
      → Waits r (some (committed dev (text, r1)))
  unfolding commit_transaction
  commit-Waits text r r1 e s = (text, (record r1 { cursor = 0; failed = true }, (simp e refl, s)))

  failed-Waits :
      (r r1 : StreamReader dev)
      → r1.failed ≡ true
      → stream dev r1 ≡ stream dev r
      → Waits r (sized dev (pos 0, r1))
  failed-Waits r r1 e s =
      subst (λ q. Waits r (some (committed dev q))) (sym (read_bytes_failed r1 e))
        (commit-Waits [] r r1 e s)

  -- The text of an incomplete frame is not all there.
  text-Waits :
      (n : ℕ) (r r1 : StreamReader dev)
      → IsOpen dev r1
      → stream dev r1 ≡ stream dev r
      → length (ahead r1) < n
      → Waits r (sized dev (pos n, r1))
  text-Waits n r r1 o s h = go (read_bytes dev n r1) (read_bytes-Outcome dev n r1 o)
    where
      go :
          (out : List ℕ × StreamReader dev)
          → Outcome dev (λ x. length x ≡ n) r1 out
          → Waits r (some (committed dev out))
      go (y, r2) (inr (m, f)) = commit-Waits y r r2 f.bad (f.same_stream ∙ s)
      go (y, r2) (inl (g, l)) =
          absurd (omega (arith, h, l, ap length (next_left y r1 r2 g), length-append y (ahead r2)))

  no_size : to_i32 (from_le []) ≡ pos 0
  unfolding to_i32 from_le
  no_size = refl

  size-Waits :
      (text more : List ℕ) (r : StreamReader dev) (out : List ℕ × StreamReader dev)
      → stream dev r ++ more ≡ framed text
      → 0 < length more
      → length text < 2 ^ 31
      → Outcome dev (λ x. length x ≡ 4) (start_transaction dev r) out
      → Waits r (sized dev (integer dev out))
  size-Waits text more r (x, r1) e h short (inr (m, f)) =
      subst (λ i. Waits r (sized dev (i, r1))) (sym (ap (λ y. to_i32 (from_le y)) m ∙ no_size))
        (failed-Waits r r1 f.bad f.same_stream)
  size-Waits text more r (x, r1) e h short (inl (g, l)) =
      let start = start_transaction dev r in
      let (same, left) = same_cut x (ahead r1 ++ more) (u32 (length text)) text l (
        sym (append_assoc x (ahead r1) more)
        ∙ ap (λ ys. ys ++ more) (next_left x start r1 g)
        ∙ e) in
      subst (λ i. Waits r (sized dev (i, r1)))
        (sym (ap (λ y. to_i32 (from_le y)) same ∙ to_i32-u32 (length text) short))
        (text-Waits (length text) r r1 (opened x start r1 g) g.same_stream
          (omega (arith, h, length-append (ahead r1) more, ap length left)))

  pub read_text-Waits :
      (text more : List ℕ) (r : StreamReader dev)
      → stream dev r ++ more ≡ framed text
      → 0 < length more
      → length text < 2 ^ 31
      → Waits r (read_text dev r)
  unfolding read_text read_i32
  read_text-Waits text more r e h short =
      let start = start_transaction dev r in
      size-Waits text more r (read_bytes dev 4 start) e h short
        (read_bytes-Outcome dev 4 start (record { within = omega arith; ok = refl }))
