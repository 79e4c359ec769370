-- ===== src/Clipboard/Storage.antt =====
-- `save` and `load` of wayland/data_control/history.cpp.
use mathlib.Core.List.{append-nil, append_assoc, map-append}
use mcs_qs.Clipboard.{
  Qt, Stored, ClipboardEntry, ClipboardHistory, new_entry, is_empty, with_entries, with_model,
  max_entries,
}
use mcs_qs.Clipboard.Disk.{
  write_entry, read_entry, write_all, save, load_entry, load_rest, load_round, load_loop, rounds_of,
  load_count, load, int32,
}
use mcs_qs.Clipboard.Valid.{IsValid}
use mcs_qs.ObjectModel.{insert_object}
use mcs_qs.ObjectModel.Rows.{insert_at_lem}
use mcs_qs.Prelude.Int.{pos, min_ℤ}
use mcs_qs.Prelude.{
  ℕ, suc, ◌≤◌, ◌<◌, ◌≡◌, refl, arith, true, false, Option, some, List, [], ◌∷◌, ◌++◌, length, All,
  map, ap, sym, ◌∙◌,
}

-- An entry but for where it is in memory.
abbrev pub unplaced : ClipboardEntry → ClipboardEntry
unplaced e = record e { address = 0 }

rounds_of_few : (n : ℕ) → n ≤ max_entries → rounds_of (min_ℤ (pos n) (pos max_entries)) ≡ n
unfolding min_ℤ
rounds_of_few n h = ground arith

int32_few : (n : ℕ) → n ≤ max_entries → int32 n ≡ pos n
int32_few n h = ground arith

module _ (qt : Qt) where
  -- The fields of an entry are read in the order in which they were written.
  read_entry-write_entry :
      (s : Stored) (rest : List ℕ) → read_entry qt (write_entry qt s ++ rest) ≡ (s, rest, true)
  unfolding read_entry write_entry
  read_entry-write_entry s rest =
      let mime = qt.text_codec.write s.mime_type in
      let bytes = qt.byte_array_codec.write s.bytes in
      let types = qt.text_list_codec.write s.all_mime_types in
      let time = qt.date_time_codec.write s.timestamp in
      let regrouped : (mime ++ (bytes ++ (types ++ time))) ++ rest
          ≡ mime ++ (bytes ++ (types ++ (time ++ rest))) =
        simp append_assoc in
      rw
        (
          regrouped,
          qt.text_codec.read-write s.mime_type (bytes ++ (types ++ (time ++ rest))),
          qt.byte_array_codec.read-write s.bytes (types ++ (time ++ rest)),
          qt.text_list_codec.read-write s.all_mime_types (time ++ rest),
          qt.date_time_codec.read-write s.timestamp rest,
        )
        refl

  load_entry_lem :
      (s : Stored) (h : ClipboardHistory)
      → is_empty s.bytes ≡ false
      → (h' : ClipboardHistory) × (load_entry qt s h ≡ some h')
        × (h'.entries.values_list ≡ h.entries.values_list ++ new_entry qt h.next_address s ∷ [])
  unfolding load_entry insert_object
  load_entry_lem s h f =
      let values = h.entries.values_list in
      let (m, e, w, follow) =
        insert_at_lem values [] (new_entry qt h.next_address s) h.entries
          (sym (append-nil values)) in
      let h' = record h { next_address = suc h.next_address } in
      (with_entries m h', rw f (ap (λ o. with_model o h') e), w)

  load_loop_lem :
      (xs : List ClipboardEntry) (h : ClipboardHistory)
      → All (λ e. is_empty e.stored.bytes ≡ false) xs
      → All (λ e. e ≡ new_entry qt e.address e.stored) xs
      → (h' : ClipboardHistory) × (load_loop qt (length xs) (write_all qt xs) true h ≡ some h')
        × (map unplaced h'.entries.values_list
            ≡ map unplaced h.entries.values_list ++ map unplaced xs)
  unfolding load_loop write_all new_entry
  load_loop_lem [] h filled made = (h, refl, sym (append-nil (map unplaced h.entries.values_list)))
  load_loop_lem (x ∷ xs) h (f, filled) (m, made) =
      let (h', e, w) = load_entry_lem x.stored h f in
      let (h'', e', w') = load_loop_lem xs h' filled made in
      let one : unplaced (new_entry qt h.next_address x.stored) ≡ unplaced x =
        sym (ap unplaced m) in
      let grown : map unplaced h'.entries.values_list
          ≡ map unplaced h.entries.values_list ++ unplaced x ∷ [] =
        ap (map unplaced) w
        ∙ map-append unplaced h.entries.values_list (new_entry qt h.next_address x.stored ∷ [])
        ∙ ap (λ y. map unplaced h.entries.values_list ++ y ∷ []) one in
      (
        h'',
        ap (λ r. load_round qt (load_loop qt (length xs)) r h)
              (read_entry-write_entry x.stored (write_all qt xs))
            ∙ ap (load_rest qt (load_loop qt (length xs) (write_all qt xs) true)) e
            ∙ e',
        w'
            ∙ ap (λ l. l ++ map unplaced xs) grown
            ∙ append_assoc (map unplaced h.entries.values_list) (unplaced x ∷ []) (map unplaced xs),
      )

  -- What a valid history saves, a history without entries loads: the entries come back in their order,
  -- with their bytes, types, times, hashes and contents, and differ only in their addresses.
  pub load-save :
      (h empty : ClipboardHistory) (file : Option (List ℕ))
      → IsValid qt h
      → empty.entries.values_list ≡ []
      → (h' : ClipboardHistory) × (load qt (save qt true h file) empty ≡ some h')
        × (map unplaced h'.entries.values_list ≡ map unplaced h.entries.values_list)
  unfolding load save
  load-save h empty file v nothing =
      let values = h.entries.values_list in
      let n = length values in
      let small : n < 2147483648 = omega (arith, v.bounded) in
      let (h', e, w) = load_loop_lem values empty v.filled v.made in
      (
        h',
        ap (λ k. load_count qt (qt.read_int (qt.write_int k ++ write_all qt values)) empty)
              (int32_few n v.bounded)
            ∙ ap (λ r. load_count qt r empty) (qt.read_int-write n (write_all qt values) small)
            ∙ ap (λ k. load_loop qt k (write_all qt values) true empty) (rounds_of_few n v.bounded)
            ∙ e,
        w ∙ ap (λ l. map unplaced l ++ map unplaced values) nothing,
      )
