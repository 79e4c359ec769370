-- ===== src/Clipboard.antt =====
-- `ClipboardHistory` of wayland/data_control/history.cpp: the entries, the selection that is read, the
-- clipboard that is set, and the timers. Pointers are addresses, and an allocation takes a new one.
pub mod Entries
pub mod Valid
pub mod Events
pub mod Storage
pub mod Selection
pub mod Calls
pub mod Disk
use mcs_qs.Log.{same_bytes}
use mcs_qs.ObjectModel.{ObjectModel, bind_model, index_if, remove_at, remove_object, insert_object}
use mcs_qs.Prelude.Int.{ℤ, pos, negsuc, sub_ℕ, min_ℤ}
use mcs_qs.Prelude.{
  ℕ, zero, suc, ◌+◌, ◌-◌, ◌*◌, ◌%◌, ◌<◌, ◌≡◌, ◌/◌, Bool, true, false, ◌&&◌, not, Option, none, some,
  List, [], ◌∷◌, ◌++◌, length, take, get_elem?, ltb, leb, ◌==◌, if◌then◌else◌,
}

abbrev pub max_entries : ℕ
max_entries = 200

abbrev pub max_image_bytes : ℕ
max_image_bytes = 10 * 1024 * 1024

-- "image/", "text/plain;charset=utf-8" and "text/plain"
abbrev image_prefix : List ℕ
image_prefix = b'i' ∷ b'm' ∷ b'a' ∷ b'g' ∷ b'e' ∷ b'/' ∷ []

abbrev pub plain_mime : List ℕ
plain_mime = b't' ∷ b'e' ∷ b'x' ∷ b't' ∷ b'/' ∷ b'p' ∷ b'l' ∷ b'a' ∷ b'i' ∷ b'n' ∷ []

abbrev pub utf8_mime : List ℕ
utf8_mime =
    plain_mime
    ++ b';' ∷ b'c' ∷ b'h' ∷ b'a' ∷ b'r' ∷ b's' ∷ b'e' ∷ b't' ∷ b'=' ∷ b'u' ∷ b't' ∷ b'f' ∷ b'-'
      ∷ b'8' ∷ []

unfoldable pub is_image_mime : List ℕ → Bool
unfolding same_bytes
is_image_mime mime = same_bytes (take 6 mime) image_prefix

-- What an entry is stored as.
pub record Stored : Type 0 where
  pub mime_type : List ℕ
  pub bytes : List ℕ
  pub all_mime_types : List (List ℕ)
  pub timestamp : ℕ

abbrev pub is_empty : {A : Type 0} → List A → Bool
is_empty [] = true
is_empty (x ∷ xs) = false

-- QDataStream for one type: a read takes what is left and whether the status is Ok, and gives a value,
-- what is left then, and the status. A value that was written is read back while the status is Ok.
pub record Codec (A : Type 0) : Type 0 where
  pub write : A → List ℕ
  pub read : List ℕ → Bool → A × List ℕ × Bool
  pub read-write : (a : A) (rest : List ℕ) → read (write a ++ rest) true ≡ (a, rest, true)

-- What the model takes from Qt: the MD5 digest, as a number; texts from and to UTF-8, of which one that is
-- not empty has bytes; and QDataStream for each type that the history stores.
pub record Qt : Type 0 where
  pub md5 : List ℕ → ℕ
  pub from_utf8 : List ℕ → List ℕ
  pub to_utf8 : List ℕ → List ℕ
  pub megabytes : ℕ → List ℕ
  pub number : ℕ → List ℕ
  pub write_int : ℤ → List ℕ
  pub read_int : List ℕ → ℤ × List ℕ × Bool
  pub text_codec : Codec (List ℕ)
  pub byte_array_codec : Codec (List ℕ)
  pub text_list_codec : Codec (List (List ℕ))
  pub date_time_codec : Codec ℕ
  pub to_utf8_filled : (t : List ℕ) → is_empty t ≡ false → is_empty (to_utf8 t) ≡ false
  pub read_int-write :
      (n : ℕ) (rest : List ℕ)
      → n < 2147483648
      → read_int (write_int (pos n) ++ rest) ≡ (pos n, rest, true)

pub record ClipboardEntry : Type 0 where
  pub address : ℕ
  pub stored : Stored
  pub hash : ℕ
  pub is_image : Bool
  pub content : List ℕ

-- What the history gives to Qt's clipboard: the bytes of an image, or a text.
pub data Clip : Type 0 where
  image : List ℕ → Clip
  text : List ℕ → Clip

-- A read of the selection on its thread: the MIME type, all of them, and the limit.
pub record Reading : Type 0 where
  pub mime : List ℕ
  pub all_mimes : List (List ℕ)
  pub max_bytes : ℕ

pub record ClipboardHistory : Type 0 where
  pub entries : ObjectModel ClipboardEntry
  pub next_address : ℕ
  -- The MIME types of the offer whose read is deferred.
  pub deferred_offer : Option (List (List ℕ))
  pub readings : List Reading
  pub save_timer : Bool
  pub is_setting_selection : Bool
  -- The single shots of 500 ms that clear the flag.
  pub clear_timers : ℕ
  pub clipboard : List Clip

abbrev pub with_entries : ObjectModel ClipboardEntry → ClipboardHistory → ClipboardHistory
with_entries m h = record h { entries = m }

abbrev pub with_model :
    Option (ObjectModel ClipboardEntry) → ClipboardHistory → Option ClipboardHistory
with_model none h = none
with_model (some m) h = some (with_entries m h)

unfoldable pub schedule_save : ClipboardHistory → ClipboardHistory
schedule_save h = record h { save_timer = true }

-- The comparison of two entries by pointer and by hash.
abbrev pub same_object : ClipboardEntry → ClipboardEntry → Bool
same_object a b = a.address == b.address

abbrev pub has_hash : ℕ → ClipboardEntry → Bool
has_hash hash e = hash == e.hash

module _ (qt : Qt) where
  unfoldable pub entry_content : Bool → Stored → List ℕ
  entry_content true s =
      let size = length s.bytes in
      b'['
      ∷ (s.mime_type
          ++ b' '
            ∷ (if leb (1024 * 1024) size
                then qt.megabytes size ++ b' ' ∷ b'M' ∷ b'B' ∷ []
                else if leb 1024 size
                then qt.number (size / 1024) ++ b' ' ∷ b'K' ∷ b'B' ∷ []
                else qt.number size ++ b' ' ∷ b'B' ∷ [])
          ++ b']' ∷ [])
  entry_content false s = take 500 (qt.from_utf8 s.bytes)

  unfoldable pub new_entry : ℕ → Stored → ClipboardEntry
  new_entry address s =
      let image = is_image_mime s.mime_type in
      record {
        address = address;
        stored = s;
        hash = qt.md5 s.bytes;
        is_image = image;
        content = entry_content image s;
      }

abbrev pub model_of :
    Option (ObjectModel ClipboardEntry × Bool) → Option (ObjectModel ClipboardEntry)
model_of none = none
model_of (some (m, found)) = some m

unfoldable pub last_of : {A : Type 0} → List A → Option A
last_of [] = none
last_of (x ∷ []) = some x
last_of (x ∷ y ∷ ys) = last_of (y ∷ ys)

-- A loop that removes and deletes the last entry while the list has `limit` entries or more: that of
-- `addEntry` with MAX_ENTRIES, that of `clear` with 1. A round takes an entry away.
abbrev pub remove_last :
    (ObjectModel ClipboardEntry → Option (ObjectModel ClipboardEntry))
    → Option ClipboardEntry
    → ObjectModel ClipboardEntry
    → Option (ObjectModel ClipboardEntry)
remove_last rest none m = none
remove_last rest (some last) m = bind_model (model_of (remove_object same_object last m)) rest

unfoldable pub evict_loop : ℕ → ℕ → ObjectModel ClipboardEntry → Option (ObjectModel ClipboardEntry)
evict_loop limit zero m = none
evict_loop limit (suc fuel) m =
    if leb limit (length m.values_list)
    then remove_last (evict_loop limit fuel) (last_of m.values_list) m
    else some m

unfoldable pub evict : ℕ → ObjectModel ClipboardEntry → Option (ObjectModel ClipboardEntry)
evict limit m = evict_loop limit (suc (length m.values_list)) m

unfoldable pub move_to_top :
    ℕ → Option ClipboardEntry → ObjectModel ClipboardEntry → Option (ObjectModel ClipboardEntry)
move_to_top i none m = none
move_to_top i (some existing) m = bind_model (remove_at i m) (insert_object existing (some 0))

unfoldable pub insert_new :
    ClipboardEntry
    → ClipboardHistory
    → Option (ObjectModel ClipboardEntry)
    → Option ClipboardHistory
insert_new entry h none = none
insert_new entry h (some m) =
    with_model (insert_object entry (some 0) m)
      (schedule_save (record h { next_address = suc h.next_address }))

module _ (qt : Qt) where
  -- What follows the search of the hash.
  unfoldable pub add_found : Option ℕ → Stored → ClipboardHistory → Option ClipboardHistory
  add_found (some i) s h =
      with_model (move_to_top i (get_elem? h.entries.values_list i) h.entries) h
  add_found none s h = insert_new (new_entry qt h.next_address s) h (evict max_entries h.entries)

  unfoldable pub add_entry : Stored → ClipboardHistory → Option ClipboardHistory
  add_entry s h = add_found (index_if (has_hash (qt.md5 s.bytes)) h.entries.values_list) s h
