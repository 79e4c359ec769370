-- ===== src/Clipboard/Selection.antt =====
-- The selection that wayland/data_control/history.cpp reads: the choice of a MIME type, the deferred
-- offer, and the loop of the reading thread.
use mcs_qs.Clipboard.{
  ClipboardHistory, max_entries, max_image_bytes, plain_mime, utf8_mime, is_image_mime,
}
use mcs_qs.Log.{same_bytes}
use mcs_qs.Prelude.{
  ℕ, ◌*◌, Bool, Option, none, some, List, [], ◌∷◌, ◌++◌, length, ltb, if◌then◌else◌,
}

unfoldable pub find_mime : (List ℕ → Bool) → List (List ℕ) → Option (List ℕ)
find_mime test [] = none
find_mime test (mime ∷ mimes) =
    let rest = find_mime test mimes in if test mime then some mime else rest

abbrev or_else : Option (List ℕ) → Option (List ℕ) → Option (List ℕ)
or_else none o = o
or_else (some mime) o = some mime

-- The empty result is `none`.
unfoldable pub choose_mime_type : List (List ℕ) → Option (List ℕ)
choose_mime_type mimes =
    or_else (find_mime (λ mime. same_bytes mime utf8_mime) mimes) (
      or_else (find_mime (λ mime. same_bytes mime plain_mime) mimes)
        (find_mime is_image_mime mimes))

-- `delete offer` and the reset of the pointer leave nothing of the offer before.
unfoldable pub on_selection_changed : Option (List (List ℕ)) → ClipboardHistory → ClipboardHistory
on_selection_changed offer h = if h.is_setting_selection then h else record h {
  deferred_offer = elim offer [
    | none ↦ none
    | some mimes ↦ elim (choose_mime_type mimes) [ none ↦ none | some mime ↦ some mimes ]
  ];
}

abbrev pub start_mime : Option (List ℕ) → Bool → List (List ℕ) → ClipboardHistory → ClipboardHistory
start_mime none pipe mimes h = h
start_mime (some mime) pipe mimes h =
    if pipe
    then record h {
      readings =
          h.readings
          ++ record {
            mime = mime;
            all_mimes = mimes;
            max_bytes = if is_image_mime mime then max_image_bytes else max_entries * 4096;
          }
            ∷ [];
    }
    else h

abbrev pub start_offer : Option (List (List ℕ)) → Bool → ClipboardHistory → ClipboardHistory
start_offer none pipe h = h
start_offer (some mimes) pipe h = start_mime (choose_mime_type mimes) pipe mimes h

-- `pipe` says whether `pipe2` gave a pipe.
unfoldable pub start_reading : Bool → ClipboardHistory → ClipboardHistory
start_reading pipe h = start_offer h.deferred_offer pipe (record h { deferred_offer = none })

-- The loop on the reading thread, over what each `read` gives; an empty one ends it.
unfoldable pub read_loop : ℕ → List (List ℕ) → List ℕ → List ℕ
read_loop max_bytes [] buffer = buffer
read_loop max_bytes ([] ∷ chunks) buffer = buffer
read_loop max_bytes ((x ∷ xs) ∷ chunks) buffer =
    let more = buffer ++ x ∷ xs in
    let rest = read_loop max_bytes chunks more in if ltb max_bytes (length more) then more else rest
