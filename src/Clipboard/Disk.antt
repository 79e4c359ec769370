-- ===== src/Clipboard/Disk.antt =====
-- `save` and `load` of wayland/data_control/history.cpp.
use mcs_qs.Clipboard.{
  Qt, Stored, ClipboardEntry, ClipboardHistory, max_entries, is_empty, with_model, new_entry,
}
use mcs_qs.ObjectModel.{insert_object}
use mcs_qs.Prelude.Int.{ℤ, pos, negsuc, sub_ℕ, min_ℤ}
use mcs_qs.Prelude.{
  ℕ, zero, suc, ◌%◌, Bool, true, false, Option, none, some, List, [], ◌∷◌, ◌++◌, length, ltb,
  if◌then◌else◌,
}

abbrev pub int32 : ℕ → ℤ
int32 n = let word = n % 4294967296 in sub_ℕ word (if ltb word 2147483648 then 0 else 4294967296)

-- A count below 0 makes no round.
abbrev pub rounds_of : ℤ → ℕ
rounds_of (pos n) = n
rounds_of (negsuc n) = 0

-- The file of `storagePath`: the number of the entries and the entries. `opened` says whether it opens.
module _ (qt : Qt) where
  unfoldable pub write_entry : Stored → List ℕ
  write_entry s =
      qt.text_codec.write s.mime_type
      ++ (qt.byte_array_codec.write s.bytes
          ++ (qt.text_list_codec.write s.all_mime_types ++ qt.date_time_codec.write s.timestamp))

  unfoldable pub write_all : List ClipboardEntry → List ℕ
  write_all [] = []
  write_all (e ∷ es) = write_entry e.stored ++ write_all es

  unfoldable pub save : Bool → ClipboardHistory → Option (List ℕ) → Option (List ℕ)
  save opened h file =
      if opened
      then some
          (qt.write_int (int32 (length h.entries.values_list)) ++ write_all h.entries.values_list)
      else file

  -- The four reads of a round; each takes the status that the one before leaves.
  unfoldable pub read_entry : List ℕ → Stored × List ℕ × Bool
  read_entry input =
      let (mime_type, input1, ok1) = qt.text_codec.read input true in
      let (bytes, input2, ok2) = qt.byte_array_codec.read input1 ok1 in
      let (all_mime_types, input3, ok3) = qt.text_list_codec.read input2 ok2 in
      let (timestamp, input4, ok4) = qt.date_time_codec.read input3 ok3 in
      (
        record {
          mime_type = mime_type;
          bytes = bytes;
          all_mime_types = all_mime_types;
          timestamp = timestamp;
        },
        input4,
        ok4,
      )

  -- An entry that was read, which is passed over if it has no bytes.
  unfoldable pub load_entry : Stored → ClipboardHistory → Option ClipboardHistory
  load_entry s h =
      if is_empty s.bytes
      then some h
      else with_model (insert_object (new_entry qt h.next_address s) none h.entries)
          (record h { next_address = suc h.next_address })

  abbrev pub load_rest :
      (ClipboardHistory → Option ClipboardHistory)
      → Option ClipboardHistory
      → Option ClipboardHistory
  load_rest rest none = none
  load_rest rest (some h) = rest h

  abbrev pub load_round :
      (List ℕ → Bool → ClipboardHistory → Option ClipboardHistory)
      → Stored × List ℕ × Bool
      → ClipboardHistory
      → Option ClipboardHistory
  load_round rest (s, input, ok) h = load_rest (rest input ok) (load_entry s h)

  -- The rounds that are left, the input, and whether the status is Ok.
  unfoldable pub load_loop : ℕ → List ℕ → Bool → ClipboardHistory → Option ClipboardHistory
  load_loop zero input ok h = some h
  load_loop (suc rounds) input false h = some h
  load_loop (suc rounds) input true h = load_round (load_loop rounds) (read_entry input) h

  abbrev pub load_count : ℤ × List ℕ × Bool → ClipboardHistory → Option ClipboardHistory
  load_count (count, input, ok) h = load_loop (rounds_of (min_ℤ count (pos max_entries))) input ok h

  unfoldable pub load : Option (List ℕ) → ClipboardHistory → Option ClipboardHistory
  load none h = some h
  load (some input) h = load_count (qt.read_int input) h
