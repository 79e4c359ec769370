-- ===== src/StreamReader/Reading.antt =====
-- What the reads of a stream reader do to its stream: what is in the buffer and what the device has
-- pending.
use mcs_qs.Prelude.{
  ℕ, zero, suc, ◌+◌, ◌-◌, ◌≤◌, ◌<◌, ◌≡◌, ◌⊎◌, refl, arith, Bool, true, false, List, [], ◌∷◌, ◌++◌,
  length, length-append, length-take, length-drop, take, drop, take-plus, take-append_le, ltb, ◌==◌,
  Bool-cases, inl, inr, ap, sym, ◌∙◌,
}
use mathlib.Core.List.{append_assoc, append-nil}
use mcs_qs.StreamReader.{Device, StreamReader, received, and_then, taken, fill, fill_to, read_bytes}

module _ (dev : Device) where
  open dev use {State, pending}

  abbrev pub stream : StreamReader dev → List ℕ
  stream r = r.buffer ++ pending r.device

  -- What the transaction has read.
  abbrev pub consumed : StreamReader dev → List ℕ
  consumed r = take r.cursor r.buffer

  -- The buffer has taken `extra` from the device.
  pub record Grows (extra : List ℕ) (r r' : StreamReader dev) : Type 0 where
    pub buffer : r'.buffer ≡ r.buffer ++ extra
    pub device : pending r.device ≡ extra ++ pending r'.device
    pub cursor : r'.cursor ≡ r.cursor
    pub failed : r'.failed ≡ r.failed

  pub Grows-refl : (r : StreamReader dev) → Grows [] r r
  Grows-refl r = record {
    buffer = sym (append-nil r.buffer);
    device = refl;
    cursor = refl;
    failed = refl;
  }

  pub Grows-trans :
      (xs ys : List ℕ) (a b c : StreamReader dev)
      → Grows xs a b
      → Grows ys b c
      → Grows (xs ++ ys) a c
  Grows-trans xs ys a b c g h = record {
    buffer = rw (h.buffer, g.buffer) (append_assoc a.buffer xs ys);
    device = rw (g.device, h.device) (sym (append_assoc xs ys (pending c.device)));
    cursor = h.cursor ∙ g.cursor;
    failed = h.failed ∙ g.failed;
  }

  pub Grows-stream : (xs : List ℕ) (a b : StreamReader dev) → Grows xs a b → stream b ≡ stream a
  Grows-stream xs a b g = rw (g.buffer, g.device) (append_assoc a.buffer xs (pending b.device))

  -- A fill that succeeds has taken a byte at least.
  abbrev pub Filled : StreamReader dev → Bool × StreamReader dev → Type 0
  Filled r (ok, r') = (extra : List ℕ) × (Grows extra r r' × (ok ≡ true → 0 < length extra))

  received-Filled :
      (r : StreamReader dev) (xs : List ℕ) (device : State)
      → pending r.device ≡ xs ++ pending device
      → Filled r (received dev r xs device)
  received-Filled r [] device e = (
    [],
    (
      record { buffer = sym (append-nil r.buffer); device = e; cursor = refl; failed = refl },
      λ h. absurd (ground arith),
    ),
  )
  received-Filled r (x ∷ xs) device e = (
    x ∷ xs,
    (record { buffer = refl; device = e; cursor = refl; failed = refl }, λ h. omega arith),
  )

  pub fill-Filled : (r : StreamReader dev) → Filled r (fill dev r)
  unfolding fill
  fill-Filled r =
      let n = dev.bytes_available r.device in
      elim (Bool-cases (n == 0)) [
        | inl t ↦ rw t ([], (Grows-refl r, λ h. absurd (ground arith)))
        | inr f ↦ rw f (
            received-Filled r (dev.read n r.device).0 (dev.read n r.device).1
              (dev.read_splits n r.device))
      ]

  -- The loop of `readBytes` ends with the bytes that are needed, if it does not fail.
  abbrev pub Reaches : ℕ → StreamReader dev → Bool × StreamReader dev → Type 0
  Reaches needed r (ok, r') =
      (extra : List ℕ) × (Grows extra r r' × (ok ≡ true → needed ≤ length r'.buffer))

  then-Reaches :
      (fuel needed : ℕ) (rest : StreamReader dev → Bool × StreamReader dev) (r : StreamReader dev)
      (out : Bool × StreamReader dev)
      → Filled r out
      → needed ≤ suc fuel + length r.buffer
      → ((r' : StreamReader dev) → needed ≤ fuel + length r'.buffer → Reaches needed r' (rest r'))
      → Reaches needed r (and_then dev false rest out)
  then-Reaches fuel needed rest r (false, r') (xs, (g, p)) h ih =
      (xs, (g, λ e. absurd (ground arith)))
  then-Reaches fuel needed rest r (true, r') (xs, (g, p)) h ih =
      let longer : length r'.buffer ≡ length r.buffer + length xs =
        ap length g.buffer ∙ length-append r.buffer xs in
      let (ys, (g', q)) = ih r' (omega (arith, longer, p refl)) in
      (xs ++ ys, (Grows-trans xs ys r r' (rest r').1 g g', q))

  pub fill_to-Reaches :
      (fuel needed : ℕ) (r : StreamReader dev)
      → needed ≤ fuel + length r.buffer
      → Reaches needed r (fill_to dev fuel needed r)
  unfolding fill_to
  fill_to-Reaches zero needed r h = ([], (Grows-refl r, λ e. omega arith))
  fill_to-Reaches (suc fuel) needed r h = elim (Bool-cases (ltb (length r.buffer) needed)) [
    | inl t ↦
        rw (fill_to, t)
          (then-Reaches fuel needed (fill_to dev fuel needed) r (fill dev r) (fill-Filled r) h
            (fill_to-Reaches fuel needed))
    | inr f ↦ rw (fill_to, f) ([], (Grows-refl r, λ e. ground arith))
  ]

  -- `x` was read: it follows what the transaction had read.
  pub record Reads (x : List ℕ) (r r' : StreamReader dev) : Type 0 where
    pub consumed_then : consumed r' ≡ consumed r ++ x
    pub within : r'.cursor ≤ length r'.buffer
    pub same_stream : stream r' ≡ stream r
    pub ok : r'.failed ≡ false

  pub record Fails (r r' : StreamReader dev) : Type 0 where
    pub same_cursor : r'.cursor ≡ r.cursor
    pub same_stream : stream r' ≡ stream r
    pub bad : r'.failed ≡ true

  -- A read gives something that `P` holds of, or fails and gives nothing.
  abbrev pub Outcome : (List ℕ → Type 0) → StreamReader dev → List ℕ × StreamReader dev → Type 0
  Outcome P r (x, r') = (Reads x r r' × P x) ⊎ ((x ≡ []) × Fails r r')

  pub record IsOpen (r : StreamReader dev) : Type 0 where
    pub within : r.cursor ≤ length r.buffer
    pub ok : r.failed ≡ false

  pub taken-Reads :
      (extra : List ℕ) (count : ℕ) (r r' : StreamReader dev)
      → IsOpen r
      → Grows extra r r'
      → r.cursor + count ≤ length r'.buffer
      → Reads (taken dev count (true, r')).0 r (taken dev count (true, r')).1
  taken-Reads extra count r r' o g h =
      let same : consumed r' ≡ consumed r =
        rw (g.cursor, g.buffer) (take-append_le r.cursor r.buffer extra o.within) in
      record {
        consumed_then =
            take-plus r'.cursor count r'.buffer
            ∙ ap (λ xs. xs ++ take count (drop r'.cursor r'.buffer)) same;
        within = omega (arith, h, g.cursor);
        same_stream = Grows-stream extra r r' g;
        ok = g.failed ∙ o.ok;
      }

  length-taken :
      (count c : ℕ) (xs : List ℕ) → c + count ≤ length xs → length (take count (drop c xs)) ≡ count
  length-taken count c xs h = omega (arith, length-take count (drop c xs), length-drop c xs)

  -- `readBytes` gives as many bytes as asked for, or fails.
  pub read_bytes-Outcome :
      (count : ℕ) (r : StreamReader dev)
      → IsOpen r
      → Outcome (λ x. length x ≡ count) r (read_bytes dev count r)
  unfolding read_bytes
  read_bytes-Outcome count r o =
      let needed = r.cursor + count in
      let fuel = needed - length r.buffer in
      simp o.ok (go (fill_to dev fuel needed r) (fill_to-Reaches fuel needed r (omega arith)))
    where
      go :
          (out : Bool × StreamReader dev)
          → Reaches (r.cursor + count) r out
          → Outcome (λ x. length x ≡ count) r (taken dev count out)
      go (false, r') (extra, (g, p)) = inr (
        refl,
        record { same_cursor = g.cursor; same_stream = Grows-stream extra r r' g; bad = refl },
      )
      go (true, r') (extra, (g, p)) = inl (
        taken-Reads extra count r r' o g (p refl),
        length-taken count r'.cursor r'.buffer (omega (arith, p refl, g.cursor)),
      )
