-- ===== src/StreamReader/Prompt.antt =====
-- Reads of a device that hands out what it has: they fail only where the stream ends.
use mcs_qs.Prelude.{
  ℕ, zero, suc, ◌+◌, ◌-◌, ◌≤◌, ◌<◌, ◌≡◌, refl, arith, Bool, true, false, List, [], ◌∷◌, length,
  length-append, ltb, ◌==◌, Bool-cases, inl, inr, ap, sym, ◌∙◌,
}
use mcs_qs.StreamReader.{Device, StreamReader, fill, fill_to, read_bytes, received, and_then, taken}
use mcs_qs.StreamReader.Reading.{
  stream, Grows-stream, Filled, fill-Filled, Reaches, fill_to-Reaches, Reads, IsOpen,
  read_bytes-Outcome,
}

-- QIODevice::bytesAvailable is 0 only if nothing is pending, and a read of what is available gives some.
pub record Prompt (dev : Device) : Type 0 where
  pub none_left : (s : dev.State) → dev.bytes_available s ≡ 0 → dev.pending s ≡ []
  pub gives :
      (s : dev.State)
      → 0 < dev.bytes_available s
      → 0 < length (dev.read (dev.bytes_available s) s).0

module _ (dev : Device) (prompt : Prompt dev) where
  received_some :
      (r : StreamReader dev) (xs : List ℕ) (s : dev.State)
      → 0 < length xs
      → (received dev r xs s).0 ≡ true
  received_some r [] s h = absurd (omega arith)
  received_some r (x ∷ xs) s h = refl

  fill-false : (r : StreamReader dev) → (fill dev r).0 ≡ false → dev.pending r.device ≡ []
  unfolding fill
  fill-false r h =
      let n = dev.bytes_available r.device in
      elim (Bool-cases (n == 0)) [
        | inl t ↦ prompt.none_left r.device (ground arith)
        | inr f ↦
            let some_left : 0 < n = ground arith in
            absurd (
              ground (
                arith,
                received_some r (dev.read n r.device).0 (dev.read n r.device).1
                    (prompt.gives r.device some_left),
                f,
                h,
              ))
      ]

  then-short :
      (needed : ℕ) (rest : StreamReader dev → Bool × StreamReader dev) (r : StreamReader dev)
      (out : Bool × StreamReader dev)
      → Filled dev r out
      → (out.0 ≡ false → length (stream dev r) < needed)
      → ((rest out.1).0 ≡ false → length (stream dev out.1) < needed)
      → (and_then dev false rest out).0 ≡ false
      → length (stream dev r) < needed
  then-short needed rest r (false, r') (xs, (g, p)) short ih h = short refl
  then-short needed rest r (true, r') (xs, (g, p)) short ih h =
      omega (arith, ih h, ap length (Grows-stream dev xs r r' g))

  fill_to_more :
      (fuel needed : ℕ) (r : StreamReader dev)
      → ltb (length r.buffer) needed ≡ true
      → fill_to dev (suc fuel) needed r ≡ and_then dev false (fill_to dev fuel needed) (fill dev r)
  unfolding fill_to
  fill_to_more fuel needed r t = rw (fill_to, t) refl

  fill_to_done :
      (fuel needed : ℕ) (r : StreamReader dev)
      → ltb (length r.buffer) needed ≡ false
      → (fill_to dev (suc fuel) needed r).0 ≡ true
  unfolding fill_to
  fill_to_done fuel needed r f = rw (fill_to, f) refl

  fill_to_short :
      (fuel needed : ℕ) (r : StreamReader dev)
      → (fill_to dev fuel needed r).0 ≡ false
      → length (stream dev r) < needed
  unfolding fill_to
  fill_to_short zero needed r h = absurd (ground arith)
  fill_to_short (suc fuel) needed r h = elim (Bool-cases (ltb (length r.buffer) needed)) [
    | inl t ↦
        let below : length r.buffer < needed = ground arith in
        then-short needed (fill_to dev fuel needed) r (fill dev r) (fill-Filled dev r)
          (λ e. omega (
            arith,
            below,
            length-append r.buffer (dev.pending r.device),
            ap length (fill-false r e),
          ))
          (fill_to_short fuel needed (fill dev r).1)
          (sym (ap (λ q. q.0) (fill_to_more fuel needed r t)) ∙ h)
    | inr f ↦ absurd (ground (arith, fill_to_done fuel needed r f, h))
  ]

  read_bytes_open :
      (count : ℕ) (r : StreamReader dev)
      → r.failed ≡ false
      → read_bytes dev count r
        ≡ taken dev count (fill_to dev (r.cursor + count - length r.buffer) (r.cursor + count) r)
  unfolding read_bytes
  read_bytes_open count r e = simp e refl

  read_bytes_short :
      (count : ℕ) (r : StreamReader dev)
      → IsOpen dev r
      → (read_bytes dev count r).1.failed ≡ true
      → length (stream dev r) < r.cursor + count
  read_bytes_short count r o e =
      let needed = r.cursor + count in
      let fuel = needed - length r.buffer in
      go (fill_to dev fuel needed r) (fill_to-Reaches dev fuel needed r (omega arith))
        (fill_to_short fuel needed r)
        (ap (λ q. q.1.failed) (sym (read_bytes_open count r o.ok)) ∙ e)
    where
      go :
          (out : Bool × StreamReader dev)
          → Reaches dev (r.cursor + count) r out
          → (out.0 ≡ false → length (stream dev r) < r.cursor + count)
          → (taken dev count out).1.failed ≡ true
          → length (stream dev r) < r.cursor + count
      go (false, r') p short h = short refl
      go (true, r') (xs, (g, p)) short h = absurd (ground (arith, g.failed, o.ok, h))

  -- A read of bytes that the buffer and the device have gives them.
  pub read_bytes-Reads :
      (count : ℕ) (r : StreamReader dev)
      → IsOpen dev r
      → r.cursor + count ≤ length (stream dev r)
      → Reads dev (read_bytes dev count r).0 r (read_bytes dev count r).1
        × (length (read_bytes dev count r).0 ≡ count)
  read_bytes-Reads count r o h = elim (read_bytes-Outcome dev count r o) [
    | inl p ↦ p
    | inr (n, f) ↦ absurd (omega (arith, h, read_bytes_short count r o f.bad))
  ]
