-- ===== src/Clipboard/Calls.antt =====
-- The calls of `ClipboardHistory` of wayland/data_control/history.cpp, and the ends of its reads.
use mcs_qs.Clipboard.Selection.{read_loop}
use mcs_qs.Clipboard.{
  Qt, ClipboardEntry, ClipboardHistory, Reading, Clip, image, text, plain_mime, utf8_mime,
  is_image_mime, is_empty, with_entries, with_model, schedule_save, same_object, evict, add_entry,
}
use mcs_qs.ObjectModel.{ObjectModel, remove_object}
use mcs_qs.Prelude.{
  ℕ, suc, ◌-◌, Bool, true, false, ◌&&◌, not, Option, none, some, List, [], ◌∷◌, ◌++◌, length, leb,
  if◌then◌else◌,
}

module _ (qt : Qt) where
  -- `std::thread` of `startReading`: the read with index `i` ends with the chunks that it read.
  unfoldable pub finish_reading :
      Reading → List (List ℕ) → ℕ → ClipboardHistory → Option ClipboardHistory
  finish_reading r chunks now h =
      let buffer = read_loop r.max_bytes chunks [] in
      if not (is_empty buffer) && leb (length buffer) r.max_bytes
      then add_entry qt
          (record {
            mime_type = r.mime;
            bytes = buffer;
            all_mime_types = r.all_mimes;
            timestamp = now;
          })
          h
      else some h

  abbrev pub set_clip : Clip → ClipboardHistory → ClipboardHistory
  set_clip clip h = record h { clipboard = h.clipboard ++ clip ∷ [] }

  abbrev pub set_flag : ClipboardHistory → ClipboardHistory
  set_flag h = record h { is_setting_selection = true; clear_timers = suc h.clear_timers }

  unfoldable pub select : ClipboardEntry → ClipboardHistory → ClipboardHistory
  select entry h = set_flag (
      set_clip
        (if entry.is_image
          then image entry.stored.bytes
          else text (qt.from_utf8 entry.stored.bytes))
        h)

  unfoldable pub add_text : List ℕ → ℕ → ClipboardHistory → Option ClipboardHistory
  add_text t now h =
      if is_empty t
      then some h
      else add_entry qt
          (record {
            mime_type = utf8_mime;
            bytes = qt.to_utf8 t;
            all_mime_types = utf8_mime ∷ plain_mime ∷ [];
            timestamp = now;
          })
          (set_flag (set_clip (text t) h))

  -- `file` is what `readAll` gives if the file opens, and `is_null` whether its bytes are no image.
  unfoldable pub add_from_file :
      Option (List ℕ) → Bool → List ℕ → ℕ → ClipboardHistory → Option ClipboardHistory
  add_from_file none is_null mime now h = some h
  add_from_file (some bytes) is_null mime now h =
      if is_empty bytes
      then some h
      else add_entry qt
          (record { mime_type = mime; bytes = bytes; all_mime_types = mime ∷ []; timestamp = now })
          (set_flag (
            if is_image_mime mime
            then if is_null then h else set_clip (image bytes) h
            else set_clip (text (qt.from_utf8 bytes)) h))

abbrev pub removed_entry :
    Option (ObjectModel ClipboardEntry × Bool) → ClipboardHistory → Option ClipboardHistory
removed_entry none h = none
removed_entry (some (m, found)) h =
    some (if found then schedule_save (with_entries m h) else with_entries m h)

unfoldable pub remove : ClipboardEntry → ClipboardHistory → Option ClipboardHistory
remove entry h = removed_entry (remove_object same_object entry h.entries) h

unfoldable pub clear : ClipboardHistory → Option ClipboardHistory
clear h = with_model (evict 1 h.entries) (schedule_save h)

-- The end of a single shot of 500 ms.
unfoldable pub clear_flag : ClipboardHistory → ClipboardHistory
clear_flag h = record h { is_setting_selection = false; clear_timers = h.clear_timers - 1 }
