-- ===== src/Clipboard/Events.antt =====
-- The events of the clipboard history of wayland/data_control/history.cpp: the selection, the timers,
-- the reads that end, and the calls. Each is one turn of the event loop.
use mcs_qs.Clipboard.{
  add_entry, new_entry, Qt, Stored, ClipboardEntry, ClipboardHistory, Reading, same_object,
  is_empty, with_entries, with_model, schedule_save, is_image_mime, image, text,
}
use mcs_qs.Clipboard.Selection.{
  start_offer, start_mime, choose_mime_type, on_selection_changed, start_reading, read_loop,
}
use mcs_qs.Clipboard.Calls.{
  set_clip, set_flag, finish_reading, select, add_text, add_from_file, remove, removed_entry, clear,
  clear_flag,
}
use mcs_qs.Clipboard.Entries.{remove_object_lem, evict_lem}
use mcs_qs.Clipboard.Valid.{AreValid, IsValid, Adds, add_entry_lem, same_hash}
use mcs_qs.ObjectModel.Diff.{erase_if, All_erase_if, erase_if-Distinct}
use mcs_qs.ObjectModel.Rows.{Follows}
use mcs_qs.Prelude.{
  ℕ, suc, ◌≤◌, ◌<◌, ◌≡◌, inl, inr, Bool-cases, Option-cases, refl, arith, Bool, true, false, not,
  ◌&&◌, Option, none, some, List, [], ◌∷◌, ◌++◌, length, take, drop, leb, get_elem?, if◌then◌else◌,
  ap, sym, subst, ◌∙◌,
}

pub data Event : Type 0 where
  selection_changed : Option (List (List ℕ)) → Event
  read_timer : (pipe : Bool) → Event
  reading_finished : (i : ℕ) → List (List ℕ) → (now : ℕ) → Event
  entry_selected : ClipboardEntry → Event
  text_added : List ℕ → (now : ℕ) → Event
  file_added : Option (List ℕ) → (is_null : Bool) → List ℕ → (now : ℕ) → Event
  entry_removed : ClipboardEntry → Event
  cleared : Event
  flag_timer : Event
  save_timer_fired : Event

length-erase_if-le :
    {A : Type 0} (test : A → Bool) (xs : List A) → length (erase_if test xs) ≤ length xs
unfolding erase_if
length-erase_if-le test [] = omega arith
length-erase_if-le test (x ∷ xs) = elim (Bool-cases (test x)) [
  | inl t ↦ rw t (omega arith)
  | inr f ↦ rw f (omega (arith, length-erase_if-le test xs))
]

module _ (qt : Qt) where
  abbrev finished :
      ℕ → Option Reading → List (List ℕ) → ℕ → ClipboardHistory → Option ClipboardHistory
  finished i none chunks now h = some h
  finished i (some r) chunks now h =
      finish_reading qt r chunks now
        (record h { readings = take i h.readings ++ drop (suc i) h.readings })

  unfoldable pub handle : Event → ClipboardHistory → Option ClipboardHistory
  handle (selection_changed offer) h = some (on_selection_changed offer h)
  handle (read_timer pipe) h = some (start_reading pipe h)
  handle (reading_finished i chunks now) h = finished i (get_elem? h.readings i) chunks now h
  handle (entry_selected entry) h = some (select qt entry h)
  handle (text_added t now) h = add_text qt t now h
  handle (file_added file is_null mime now) h = add_from_file qt file is_null mime now h
  handle (entry_removed entry) h = remove entry h
  handle cleared h = clear h
  handle flag_timer h = some (clear_flag h)
  handle save_timer_fired h = some (record h { save_timer = false })

  abbrev pub run_rest :
      (ClipboardHistory → Option ClipboardHistory)
      → Option ClipboardHistory
      → Option ClipboardHistory
  run_rest rest none = none
  run_rest rest (some h) = rest h

  unfoldable pub run : List Event → ClipboardHistory → Option ClipboardHistory
  run [] h = some h
  run (e ∷ es) h = run_rest (run es) (handle e h)

  -- An event leads to a valid history, and a view that followed the entries follows them.
  abbrev pub Keeps : Option ClipboardHistory → ClipboardHistory → Type 0
  Keeps o h =
      (h' : ClipboardHistory) × (o ≡ some h')
      × IsValid qt h'
      × ((xs : List ClipboardEntry) → Follows xs h.entries → Follows xs h'.entries)

  Keeps-same :
      (o : Option ClipboardHistory) (h h' : ClipboardHistory)
      → o ≡ some h'
      → h'.entries ≡ h.entries
      → h'.next_address ≡ h.next_address
      → IsValid qt h
      → Keeps o h
  Keeps-same o h h' e same next v = (
    h',
    e,
    subst (λ m. AreValid qt h'.next_address m.values_list) (sym same)
        (subst (λ n. AreValid qt n h.entries.values_list) (sym next) v),
    λ xs f. subst (Follows xs) (sym same) f,
  )

  Keeps-of_Adds : (s : Stored) (h : ClipboardHistory) → Adds qt s h → Keeps (add_entry qt s h) h
  Keeps-of_Adds s h (h', e, v, order, follow) = (h', e, v, follow)

  start_mime_same :
      (mime : Option (List ℕ)) (pipe : Bool) (mimes : List (List ℕ)) (h : ClipboardHistory)
      → ((start_mime mime pipe mimes h).entries ≡ h.entries)
        × ((start_mime mime pipe mimes h).next_address ≡ h.next_address)
  start_mime_same none pipe mimes h = (refl, refl)
  start_mime_same (some mime) true mimes h = (refl, refl)
  start_mime_same (some mime) false mimes h = (refl, refl)

  start_offer_same :
      (offer : Option (List (List ℕ))) (pipe : Bool) (h : ClipboardHistory)
      → ((start_offer offer pipe h).entries ≡ h.entries)
        × ((start_offer offer pipe h).next_address ≡ h.next_address)
  start_offer_same none pipe h = (refl, refl)
  start_offer_same (some mimes) pipe h = start_mime_same (choose_mime_type mimes) pipe mimes h

  finish_reading-Keeps :
      (r : Reading) (chunks : List (List ℕ)) (now : ℕ) (h : ClipboardHistory)
      → IsValid qt h
      → Keeps (finish_reading qt r chunks now h) h
  unfolding finish_reading
  finish_reading-Keeps r chunks now h v =
      let buffer = read_loop r.max_bytes chunks [] in
      elim (Bool-cases (not (is_empty buffer) && leb (length buffer) r.max_bytes)) [
        | inl t ↦ rw t (Keeps-of_Adds _ h (add_entry_lem qt _ h v (ground (arith, t))))
        | inr f ↦ rw f (Keeps-same _ h h refl refl refl v)
      ]

  add_text-Keeps :
      (t : List ℕ) (now : ℕ) (h : ClipboardHistory) → IsValid qt h → Keeps (add_text qt t now h) h
  unfolding add_text
  add_text-Keeps t now h v = elim (Bool-cases (is_empty t)) [
    | inl e ↦ rw e (Keeps-same _ h h refl refl refl v)
    | inr f ↦ rw f (
        Keeps-of_Adds _ _
          (add_entry_lem qt _ (set_flag qt (set_clip qt (text t) h)) v (qt.to_utf8_filled t f)))
  ]

  add_from_file-Keeps :
      (file : Option (List ℕ)) (is_null : Bool) (mime : List ℕ) (now : ℕ) (h : ClipboardHistory)
      → IsValid qt h
      → Keeps (add_from_file qt file is_null mime now h) h
  unfolding add_from_file
  add_from_file-Keeps none is_null mime now h v = Keeps-same _ h h refl refl refl v
  add_from_file-Keeps (some bytes) is_null mime now h v = elim (Bool-cases (is_empty bytes)) [
    | inl e ↦ rw e (Keeps-same _ h h refl refl refl v)
    | inr f ↦ rw f (elim (Bool-cases (is_image_mime mime)) [
      | inr other ↦ rw other (
          Keeps-of_Adds _ _
            (add_entry_lem qt _ (set_flag qt (set_clip qt (text (qt.from_utf8 bytes)) h)) v f))
      | inl img ↦
          rw img
            (elim is_null
              as (λ b.
                Keeps
                  (add_entry qt
                    (record {
                      mime_type = mime;
                      bytes = bytes;
                      all_mime_types = mime ∷ [];
                      timestamp = now;
                    })
                    (set_flag qt (if b then h else set_clip qt (image bytes) h)))
                  h) [
                    | true ↦ Keeps-of_Adds _ _ (add_entry_lem qt _ (set_flag qt h) v f)
                    | false ↦
                        Keeps-of_Adds _ _
                          (add_entry_lem qt _ (set_flag qt (set_clip qt (image bytes) h)) v f)
                  ])
    ])
  ]

  erase_if-AreValid :
      (next : ℕ) (test : ClipboardEntry → Bool) (xs : List ClipboardEntry)
      → AreValid qt next xs
      → AreValid qt next (erase_if test xs)
  erase_if-AreValid next test xs v = record {
    bounded = omega (arith, v.bounded, length-erase_if-le test xs);
    hashes_apart = erase_if-Distinct same_hash test xs v.hashes_apart;
    objects_apart = erase_if-Distinct same_object test xs v.objects_apart;
    taken = All_erase_if (λ e. e.address < next) test xs v.taken;
    filled = All_erase_if (λ e. is_empty e.stored.bytes ≡ false) test xs v.filled;
    made = All_erase_if (λ e. e ≡ new_entry qt e.address e.stored) test xs v.made;
  }

  remove-Keeps :
      (entry : ClipboardEntry) (h : ClipboardHistory) → IsValid qt h → Keeps (remove entry h) h
  unfolding remove schedule_save
  remove-Keeps entry h v =
      let (m, found, e, w, follow) = remove_object_lem same_object entry h.entries in
      let valid =
        subst (AreValid qt h.next_address) (sym w)
          (erase_if-AreValid h.next_address (same_object entry) h.entries.values_list v) in
      elim (Bool-cases found) [
        | inl t ↦ (
          schedule_save (with_entries m h),
          ap (λ o. removed_entry o h) e ∙ rw t refl,
          valid,
          follow,
        )
        | inr f ↦ (with_entries m h, ap (λ o. removed_entry o h) e ∙ rw f refl, valid, follow)
      ]

  clear-Keeps : (h : ClipboardHistory) → IsValid qt h → Keeps (clear h) h
  unfolding clear schedule_save
  clear-Keeps h v =
      let (m, e, w, follow) = evict_lem 0 h.entries v.objects_apart in
      (
        with_entries m (schedule_save h),
        ap (λ o. with_model o (schedule_save h)) e,
        subst (AreValid qt h.next_address) (sym w) (record {
          bounded = omega arith;
          hashes_apart = tt;
          objects_apart = tt;
          taken = tt;
          filled = tt;
          made = tt;
        }),
        follow,
      )

  -- No event fails or breaks the history.
  handle-Keeps : (e : Event) (h : ClipboardHistory) → IsValid qt h → Keeps (handle e h) h
  unfolding handle on_selection_changed start_reading select clear_flag
  handle-Keeps (selection_changed offer) h v = elim (Bool-cases h.is_setting_selection) [
    | inl t ↦ Keeps-same _ h _ refl (rw t refl) (rw t refl) v
    | inr f ↦ Keeps-same _ h _ refl (rw f refl) (rw f refl) v
  ]
  handle-Keeps (read_timer pipe) h v =
      let (m, n) = start_offer_same h.deferred_offer pipe (record h { deferred_offer = none }) in
      Keeps-same _ h _ refl m n v
  handle-Keeps (reading_finished i chunks now) h v = elim (Option-cases (get_elem? h.readings i)) [
    | inl e ↦ rw e (Keeps-same _ h h refl refl refl v)
    | inr (r, e) ↦ rw e (
        finish_reading-Keeps r chunks now
          (record h { readings = take i h.readings ++ drop (suc i) h.readings }) v)
  ]
  handle-Keeps (entry_selected entry) h v = Keeps-same _ h _ refl refl refl v
  handle-Keeps (text_added t now) h v = add_text-Keeps t now h v
  handle-Keeps (file_added file is_null mime now) h v =
      add_from_file-Keeps file is_null mime now h v
  handle-Keeps (entry_removed entry) h v = remove-Keeps entry h v
  handle-Keeps cleared h v = clear-Keeps h v
  handle-Keeps flag_timer h v = Keeps-same _ h _ refl refl refl v
  handle-Keeps save_timer_fired h v = Keeps-same _ h _ refl refl refl v

  -- Whatever the events are, a valid history comes through them: none of them takes a row out of range.
  -- It then has at most 200 entries, no two with one hash or one address, each with bytes and as its
  -- constructor made it, and a view that followed the entries follows them.
  pub run-IsValid : (es : List Event) (h : ClipboardHistory) → IsValid qt h → Keeps (run es h) h
  unfolding run
  run-IsValid [] h v = (h, refl, v, λ xs f. f)
  run-IsValid (e ∷ es) h v =
      let (h', o, v', follow) = handle-Keeps e h v in
      let (h'', o', v'', follow') = run-IsValid es h' v' in
      (h'', ap (run_rest (run es)) o ∙ o', v'', λ xs f. follow' xs (follow xs f))
