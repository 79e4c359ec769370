-- ===== src/StreamReader.antt =====
-- `StreamReader` of core/streamreader.cpp: reads of a device that are made together or not at all. What
-- is read stays in a buffer, behind a cursor, until the transaction is committed.
pub mod Reading
pub mod Until
pub mod Prompt
pub mod Transactions
use mcs_qs.Prelude.{
  ℕ, zero, suc, ◌+◌, ◌-◌, ◌^◌, ◌≡◌, Bool, true, false, Option, none, some, List, [], ◌∷◌, ◌++◌,
  length, take, drop, ltb, leb, ◌==◌, if◌then◌else◌,
}
use mcs_qs.Prelude.Int.{ℤ, pos, negsuc}
use mcs_qs.Log.Bytes.{from_le}

-- What a reader takes from its QIODevice. `pending` is what the device has received and not handed out; a
-- read hands out its beginning, or nothing.
pub record Device : Type 1 where
  pub State : Type 0
  pub bytes_available : State → ℕ
  pub read : ℕ → State → List ℕ × State
  pub pending : State → List ℕ
  pub read_splits : (n : ℕ) (s : State) → pending s ≡ (read n s).0 ++ pending (read n s).1

-- QByteArray::indexOf, from a place on.
unfoldable pub index_of : ℕ → List ℕ → Option ℕ
index_of c [] = none
index_of c (x ∷ xs) =
    let rest = index_of c xs in
    if x == c then some 0 else elim rest [ none ↦ none | some i ↦ some (suc i) ]

unfoldable pub index_from : ℕ → ℕ → List ℕ → Option ℕ
index_from c from xs = elim (index_of c (drop from xs)) [ none ↦ none | some i ↦ some (from + i) ]

-- The `qint32` of four bytes.
unfoldable pub to_i32 : ℕ → ℤ
to_i32 n = if ltb n (2 ^ 31) then pos n else negsuc (2 ^ 32 - 1 - n)

module _ (dev : Device) where
  open dev use {State}

  pub record StreamReader : Type 0 where
    pub device : State
    pub buffer : List ℕ
    pub cursor : ℕ
    pub failed : Bool

module _ (dev : Device) where
  open dev use {State}

  abbrev pub reset : StreamReader dev → StreamReader dev
  reset r = record r { buffer = []; cursor = 0 }

  abbrev pub set_device : State → StreamReader dev → StreamReader dev
  set_device device r = record (reset r) { device = device }

  abbrev pub start_transaction : StreamReader dev → StreamReader dev
  start_transaction r = record r { cursor = 0; failed = false }

  -- The end of `fill`, for the bytes that the device gave.
  abbrev pub received : StreamReader dev → List ℕ → State → Bool × StreamReader dev
  received r [] device = (false, record r { device = device })
  received r (x ∷ xs) device = (true, record r { device = device; buffer = r.buffer ++ x ∷ xs })

  unfoldable pub fill : StreamReader dev → Bool × StreamReader dev
  fill r =
      let available = dev.bytes_available r.device in
      if available == 0
      then (false, r)
      else received r (dev.read available r.device).0 (dev.read available r.device).1

  -- A loop goes on after a `fill` that succeeded.
  abbrev pub and_then :
      {A : Type 0}
      → A
      → (StreamReader dev → A × StreamReader dev)
      → Bool × StreamReader dev
      → A × StreamReader dev
  and_then a rest (false, r) = (a, r)
  and_then a rest (true, r) = rest r

  -- The loop of `readBytes`: whether the buffer got to the size. The fuel is the bytes that are missing.
  unfoldable pub fill_to : ℕ → ℕ → StreamReader dev → Bool × StreamReader dev
  fill_to zero needed r = (true, r)
  fill_to (suc fuel) needed r = elim (ltb (length r.buffer) needed) [
    | false ↦ (true, r)
    | true ↦ and_then false (fill_to fuel needed) (fill r)
  ]

  abbrev pub taken : ℕ → Bool × StreamReader dev → List ℕ × StreamReader dev
  taken count (false, r) = ([], record r { failed = true })
  taken count (true, r) =
      (take count (drop r.cursor r.buffer), record r { cursor = r.cursor + count })

  unfoldable pub read_bytes : ℕ → StreamReader dev → List ℕ × StreamReader dev
  read_bytes count r =
      if r.failed
      then ([], r)
      else taken count (fill_to (r.cursor + count - length r.buffer) (r.cursor + count) r)

  -- The loop of `readUntil`: where the terminator is.
  unfoldable pub search : ℕ → ℕ → ℕ → StreamReader dev → Option ℕ × StreamReader dev
  search zero c from r = (none, r)
  search (suc fuel) c from r = elim (index_from c from r.buffer) [
    | some i ↦ (some i, r)
    | none ↦ and_then none (search fuel c (length r.buffer)) (fill r)
  ]

  abbrev pub found : Option ℕ × StreamReader dev → List ℕ × StreamReader dev
  found (none, r) = ([], record r { failed = true })
  found (some i, r) = taken (i - r.cursor + 1) (true, r)

  -- Each round takes a byte off what is pending, so this fuel is enough.
  unfoldable pub read_until : ℕ → StreamReader dev → List ℕ × StreamReader dev
  read_until terminator r =
      if r.failed
      then ([], r)
      else found (search (suc (length (dev.pending r.device))) terminator r.cursor r)

  abbrev pub integer : List ℕ × StreamReader dev → ℤ × StreamReader dev
  integer (bytes, r) = (to_i32 (from_le bytes), r)

  -- With `readInto`, which leaves 0 where nothing was read.
  unfoldable pub read_i32 : StreamReader dev → ℤ × StreamReader dev
  read_i32 r = integer (read_bytes 4 r)

  unfoldable pub commit_transaction : StreamReader dev → Bool × StreamReader dev
  commit_transaction r =
      if r.failed
      then (false, record r { cursor = 0 })
      else (true, record r { buffer = drop r.cursor r.buffer; cursor = 0 })
