-- ===== src/Examples/Clipboards.antt =====
-- A clipboard history with two entries, over a simple codec.
use mathlib.Core.List.{append_assoc}
use mcs_qs.Clipboard.{Codec, Qt, Stored, ClipboardEntry, ClipboardHistory, new_entry, plain_mime}
use mcs_qs.Clipboard.Disk.{save, load}
use mcs_qs.Clipboard.Events.{
  run, Keeps, run-IsValid, Event, entry_selected, text_added, selection_changed, read_timer,
  reading_finished, entry_removed, flag_timer, save_timer_fired,
}
use mcs_qs.Clipboard.Storage.{load-save, unplaced}
use mcs_qs.Clipboard.Valid.{IsValid, Adds, add_entry_lem}
use mcs_qs.Prelude.Int.{ℤ, pos, negsuc}
use mcs_qs.Prelude.{
  if◌then◌else◌, ℕ, zero, suc, ◌+◌, ◌*◌, ◌≡◌, refl, arith, Bool, true, false, none, some, List, [],
  ◌∷◌, ◌++◌, length, take, drop, map, ap, ◌∙◌, take-length_append, drop-length_append,
}

abbrev digest : List ℕ → ℕ
digest [] = 7
digest (x ∷ xs) = x + 256 * digest xs

abbrev write_number : ℤ → List ℕ
write_number (pos n) = n ∷ []
write_number (negsuc n) = 0 ∷ []

abbrev read_number : List ℕ → ℤ × List ℕ × Bool
read_number [] = (pos 0, [], false)
read_number (n ∷ rest) = (pos n, rest, true)

abbrev write_list : List ℕ → List ℕ
write_list xs = length xs ∷ xs

abbrev read_list : List ℕ → List ℕ × List ℕ
read_list [] = ([], [])
read_list (n ∷ rest) = (take n rest, drop n rest)

abbrev write_lists : List (List ℕ) → List ℕ
write_lists [] = []
write_lists (xs ∷ xss) = write_list xs ++ write_lists xss

abbrev read_lists : ℕ → List ℕ → List (List ℕ) × List ℕ
read_lists zero input = ([], input)
read_lists (suc n) input =
    let first = read_list input in
    let others = read_lists n first.1 in (first.0 ∷ others.0, others.1)

read_list-write : (xs rest : List ℕ) → read_list (write_list xs ++ rest) ≡ (xs, rest)
read_list-write xs rest = rw (take-length_append xs rest, drop-length_append xs rest) refl

read_lists-write :
    (xss : List (List ℕ)) (rest : List ℕ)
    → read_lists (length xss) (write_lists xss ++ rest) ≡ (xss, rest)
read_lists-write [] rest = refl
read_lists-write (xs ∷ xss) rest =
    ap
      (λ input.
        let first = read_list input in
        let others = read_lists (length xss) first.1 in (first.0 ∷ others.0, others.1))
      (append_assoc (write_list xs) (write_lists xss) rest)
    ∙ ap (λ first. let others = read_lists (length xss) first.1 in (first.0 ∷ others.0, others.1))
        (read_list-write xs (write_lists xss ++ rest))
    ∙ ap (λ others. (xs ∷ others.0, others.1)) (read_lists-write xss rest)

-- A read after a failure gives an empty value.
abbrev list_codec : Codec (List ℕ)
list_codec = record {
  write = write_list;
  read = λ input ok.
      if ok then ((read_list input).0, (read_list input).1, true) else ([], input, false);
  read-write = λ xs rest. ap (λ r. (r.0, r.1, true)) (read_list-write xs rest);
}

abbrev read_counted : List ℕ → List (List ℕ) × List ℕ × Bool
read_counted [] = ([], [], false)
read_counted (n ∷ rest) = ((read_lists n rest).0, (read_lists n rest).1, true)

abbrev lists_codec : Codec (List (List ℕ))
lists_codec = record {
  write = λ xss. length xss ∷ write_lists xss;
  read = λ input ok. if ok then read_counted input else ([], input, false);
  read-write = λ xss rest. ap (λ r. (r.0, r.1, true)) (read_lists-write xss rest);
}

abbrev read_time : List ℕ → ℕ × List ℕ × Bool
read_time [] = (0, [], false)
read_time (n ∷ rest) = (n, rest, true)

abbrev time_codec : Codec ℕ
time_codec = record {
  write = λ n. n ∷ [];
  read = λ input ok. if ok then read_time input else (0, input, false);
  read-write = λ n rest. refl;
}

abbrev qt : Qt
qt = record {
  md5 = digest;
  from_utf8 = λ xs. xs;
  to_utf8 = λ xs. xs;
  megabytes = λ n. n ∷ [];
  number = λ n. n ∷ [];
  write_int = write_number;
  read_int = read_number;
  text_codec = list_codec;
  byte_array_codec = list_codec;
  text_list_codec = lists_codec;
  date_time_codec = time_codec;
  to_utf8_filled = λ t h. h;
  read_int-write = λ n rest h. refl;
}

abbrev stored : List ℕ → Stored
stored bytes = record {
  mime_type = plain_mime;
  bytes = bytes;
  all_mime_types = plain_mime ∷ [];
  timestamp = 5;
}

abbrev history : List ClipboardEntry → ClipboardHistory
history entries = record {
  entries = record { values_list = entries; signals = [] };
  next_address = 2;
  deferred_offer = none;
  readings = [];
  save_timer = false;
  is_setting_selection = false;
  clear_timers = 0;
  clipboard = [];
}

abbrev first : ClipboardEntry
first = new_entry qt 0 (stored (97 ∷ []))

abbrev second : ClipboardEntry
second = new_entry qt 1 (stored (98 ∷ []))

abbrev two : ClipboardHistory
two = history (second ∷ first ∷ [])

two-IsValid : IsValid qt two
unfolding new_entry
two-IsValid = record {
  bounded = omega arith;
  hashes_apart = ((refl, tt), (tt, tt));
  objects_apart = ((refl, tt), (tt, tt));
  taken = (omega arith, (omega arith, tt));
  filled = (refl, (refl, tt));
  made = (refl, (refl, tt));
}

-- The bytes of the second entry are added again.
add_example : Adds qt (stored (97 ∷ [])) two
add_example = add_entry_lem qt (stored (97 ∷ [])) two two-IsValid refl

abbrev events : List Event
events =
    selection_changed (some (plain_mime ∷ []))
    ∷ read_timer true
    ∷ reading_finished 0 ((99 ∷ []) ∷ (100 ∷ []) ∷ []) 9
    ∷ entry_selected first
    ∷ text_added (101 ∷ []) 10
    ∷ entry_removed second
    ∷ flag_timer
    ∷ save_timer_fired
    ∷ []

run_example : Keeps qt (run qt events two) two
run_example = run-IsValid qt events two two-IsValid

load_example :
    (h' : ClipboardHistory) × (load qt (save qt true two none) (history []) ≡ some h')
    × (map unplaced h'.entries.values_list ≡ map unplaced two.entries.values_list)
load_example = load-save qt two (history []) none two-IsValid refl
