-- ===== src/Clipboard/Valid.antt =====
-- `addEntry` of wayland/data_control/history.cpp keeps a list of the most recent entries.
use mcs_qs.Clipboard.{
  Qt, Stored, ClipboardEntry, ClipboardHistory, same_object, has_hash, new_entry, is_empty,
  with_entries, with_model, schedule_save, insert_new, max_entries, add_found, add_entry,
}
use mcs_qs.Clipboard.Entries.{take_whole, move_to_top_lem, evict_lem}
use mcs_qs.ObjectModel.{insert_object, index_if}
use mcs_qs.ObjectModel.Diff.{erase_if, index_if_lem, Distinct}
use mcs_qs.ObjectModel.Rows.{Follows, insert_at_lem}
use mcs_qs.Prelude.{
  ℕ, zero, suc, ◌≤◌, ◌<◌, ◌≡◌, inl, inr, Bool-cases, refl, arith, Bool, true, false, none, some,
  List, [], ◌∷◌, ◌++◌, length, take, All, map, ◌==◌, ap, sym, subst, ◌∙◌, length-append,
  length-take, map-take, All_imp,
}

module _ {A : Type 0} where
  -- An element of the list comes to its front.
  All_to_front :
      (P : A → Type 0) (front : List A) (z : A) (after : List A)
      → All P (front ++ z ∷ after)
      → P z × All P (front ++ after)
  All_to_front P [] z after h = h
  All_to_front P (x ∷ front) z after (p, h) =
      let (q, r) = All_to_front P front z after h in (q, (p, r))

  Distinct-to_front :
      (same : A → A → Bool) (front : List A) (z : A) (after : List A)
      → ((a b : A) → same a b ≡ same b a)
      → Distinct same (front ++ z ∷ after)
      → Distinct same (z ∷ (front ++ after))
  Distinct-to_front same [] z after comm d = d
  Distinct-to_front same (x ∷ front) z after comm (fresh, d) =
      let (apart, rest) = All_to_front (λ y. same x y ≡ false) front z after fresh in
      let (others, d') = Distinct-to_front same front z after comm d in
      ((comm z x ∙ apart, others), (rest, d'))

  pub All_take : (P : A → Type 0) (n : ℕ) (xs : List A) → All P xs → All P (take n xs)
  All_take P zero xs h = tt
  All_take P (suc n) [] h = tt
  All_take P (suc n) (x ∷ xs) (p, h) = (p, All_take P n xs h)

  Distinct-take :
      (same : A → A → Bool) (n : ℕ) (xs : List A) → Distinct same xs → Distinct same (take n xs)
  Distinct-take same zero xs d = tt
  Distinct-take same (suc n) [] d = tt
  Distinct-take same (suc n) (x ∷ xs) (fresh, d) =
      (All_take (λ y. same x y ≡ false) n xs fresh, Distinct-take same n xs d)

abbrev pub same_hash : ClipboardEntry → ClipboardEntry → Bool
same_hash a b = a.hash == b.hash

abbrev pub hashes : List ClipboardEntry → List ℕ
hashes = map (λ e. e.hash)

-- The digests in the order of their last use, without what is over the limit.
abbrev pub recent : ℕ → List ℕ → List ℕ
recent k ks = take max_entries (k ∷ erase_if (λ j. k == j) ks)

hashes-erase_if :
    (k : ℕ) (xs : List ClipboardEntry)
    → hashes (erase_if (has_hash k) xs) ≡ erase_if (λ j. k == j) (hashes xs)
unfolding erase_if
hashes-erase_if k [] = refl
hashes-erase_if k (x ∷ xs) = elim (Bool-cases (has_hash k x)) [
  | inl t ↦ rw t refl
  | inr f ↦ rw f (ap (λ l. x.hash ∷ l) (hashes-erase_if k xs))
]

length-hashes : (xs : List ClipboardEntry) → length (hashes xs) ≡ length xs
length-hashes [] = refl
length-hashes (x ∷ xs) = ap suc (length-hashes xs)

same_number : (a b : ℕ) → (a == b) ≡ (b == a)
same_number a b = ground arith

module _ (qt : Qt) where
  -- The entries are not too many, no two of them have one hash or one address, their addresses are
  -- taken, they have bytes, and each is as its constructor made it.
  pub record AreValid (next : ℕ) (xs : List ClipboardEntry) : Type 0 where
    pub bounded : length xs ≤ max_entries
    pub hashes_apart : Distinct same_hash xs
    pub objects_apart : Distinct same_object xs
    pub taken : All (λ e. e.address < next) xs
    pub filled : All (λ e. is_empty e.stored.bytes ≡ false) xs
    pub made : All (λ e. e ≡ new_entry qt e.address e.stored) xs

  abbrev pub IsValid : ClipboardHistory → Type 0
  IsValid h = AreValid h.next_address h.entries.values_list

  top-AreValid :
      (next : ℕ) (front : List ClipboardEntry) (z : ClipboardEntry) (after : List ClipboardEntry)
      → AreValid next (front ++ z ∷ after)
      → AreValid next (z ∷ (front ++ after))
  top-AreValid next front z after v = record {
    bounded = omega (arith, v.bounded, length-append front (z ∷ after), length-append front after);
    hashes_apart =
        Distinct-to_front same_hash front z after (λ a b. same_number a.hash b.hash) v.hashes_apart;
    objects_apart =
        Distinct-to_front same_object front z after (λ a b. same_number a.address b.address)
          v.objects_apart;
    taken = All_to_front (λ e. e.address < next) front z after v.taken;
    filled = All_to_front (λ e. is_empty e.stored.bytes ≡ false) front z after v.filled;
    made = All_to_front (λ e. e ≡ new_entry qt e.address e.stored) front z after v.made;
  }

  new-AreValid :
      (next : ℕ) (s : Stored) (xs : List ClipboardEntry)
      → AreValid next xs
      → is_empty s.bytes ≡ false
      → All (λ y. has_hash (qt.md5 s.bytes) y ≡ false) xs
      → AreValid (suc next) (new_entry qt next s ∷ take 199 xs)
  unfolding new_entry
  new-AreValid next s xs v some_bytes other = record {
    bounded = omega (arith, length-take 199 xs);
    hashes_apart = (
      All_take (λ y. has_hash (qt.md5 s.bytes) y ≡ false) 199 xs other,
      Distinct-take same_hash 199 xs v.hashes_apart,
    );
    objects_apart = (
      All_take (λ y. (next == y.address) ≡ false) 199 xs
          (All_imp (λ y. y.address < next) (λ y. (next == y.address) ≡ false) xs
            (λ y lt. ground arith) v.taken),
      Distinct-take same_object 199 xs v.objects_apart,
    );
    taken = (
      omega arith,
      All_take (λ y. y.address < suc next) 199 xs
          (All_imp (λ y. y.address < next) (λ y. y.address < suc next) xs (λ y lt. omega arith)
            v.taken),
    );
    filled = (some_bytes, All_take (λ e. is_empty e.stored.bytes ≡ false) 199 xs v.filled);
    made = (refl, All_take (λ e. e ≡ new_entry qt e.address e.stored) 199 xs v.made);
  }

  -- What `addEntry` does: it succeeds, the history stays valid, its hashes are the most recent ones, and
  -- a view that followed the entries follows them.
  abbrev pub Adds : Stored → ClipboardHistory → Type 0
  Adds s h =
      (h' : ClipboardHistory) × (add_entry qt s h ≡ some h')
      × IsValid h'
      × (hashes h'.entries.values_list ≡ recent (qt.md5 s.bytes) (hashes h.entries.values_list))
      × ((xs : List ClipboardEntry) → Follows xs h.entries → Follows xs h'.entries)

  Adds-known :
      (s : Stored) (h : ClipboardHistory) (front : List ClipboardEntry) (z : ClipboardEntry)
      (after : List ClipboardEntry)
      → IsValid h
      → index_if (has_hash (qt.md5 s.bytes)) h.entries.values_list ≡ some (length front)
      → h.entries.values_list ≡ front ++ z ∷ after
      → erase_if (has_hash (qt.md5 s.bytes)) h.entries.values_list ≡ front ++ after
      → has_hash (qt.md5 s.bytes) z ≡ true
      → Adds s h
  unfolding add_entry add_found
  Adds-known s h front z after v found cut rest t =
      let k = qt.md5 s.bytes in
      let values = h.entries.values_list in
      let (m, e, w, follow) = move_to_top_lem (has_hash k) front z after h.entries cut rest in
      let valid : AreValid h.next_address (z ∷ (front ++ after)) =
        top-AreValid h.next_address front z after (subst (AreValid h.next_address) cut v) in
      let order : z ∷ (front ++ after) ≡ m.values_list = ap (λ l. z ∷ l) (sym rest) ∙ sym w in
      let key : z.hash ≡ k = ground arith in
      let spelled : z.hash ∷ hashes (erase_if (has_hash k) values)
          ≡ k ∷ erase_if (λ j. k == j) (hashes values) =
        ap (λ n. n ∷ hashes (erase_if (has_hash k) values)) key
        ∙ ap (λ l. k ∷ l) (hashes-erase_if k values) in
      let few : length (k ∷ erase_if (λ j. k == j) (hashes values)) ≤ max_entries = omega (
        arith,
        valid.bounded,
        ap length (sym (hashes-erase_if k values)),
        length-hashes (erase_if (has_hash k) values),
        ap length rest,
      ) in
      (
        with_entries m h,
        ap (λ o. add_found qt o s h) found ∙ ap (λ o. with_model o h) e,
        subst (AreValid h.next_address) order valid,
        ap hashes w ∙ spelled ∙ sym (take_whole max_entries _ few),
        follow,
      )

  Adds-new :
      (s : Stored) (h : ClipboardHistory)
      → IsValid h
      → is_empty s.bytes ≡ false
      → index_if (has_hash (qt.md5 s.bytes)) h.entries.values_list ≡ none
      → erase_if (has_hash (qt.md5 s.bytes)) h.entries.values_list ≡ h.entries.values_list
      → All (λ y. has_hash (qt.md5 s.bytes) y ≡ false) h.entries.values_list
      → Adds s h
  unfolding add_entry add_found insert_new insert_object new_entry schedule_save
  Adds-new s h v some_bytes missing whole other =
      let k = qt.md5 s.bytes in
      let values = h.entries.values_list in
      let entry = new_entry qt h.next_address s in
      let (m, e, w, follow) = evict_lem 199 h.entries v.objects_apart in
      let (m', e', w', follow') = insert_at_lem [] m.values_list entry m refl in
      let order : entry ∷ take 199 values ≡ m'.values_list = ap (λ l. entry ∷ l) (sym w) ∙ sym w' in
      let h' = schedule_save (record h { next_address = suc h.next_address }) in
      let erased : erase_if (λ j. k == j) (hashes values) ≡ hashes values =
        sym (hashes-erase_if k values) ∙ ap hashes whole in
      (
        with_entries m' h',
        ap (λ o. add_found qt o s h) missing
            ∙ ap (insert_new entry h) e
            ∙ ap (λ o. with_model o h') e',
        subst (AreValid (suc h.next_address)) order
            (new-AreValid h.next_address s values v some_bytes other),
        ap hashes (sym order)
            ∙ ap (λ l. k ∷ l) (map-take (λ e. e.hash) 199 values ∙ ap (take 199) (sym erased)),
        λ xs f. follow' xs (follow xs f),
      )

  -- Adding bytes that are not empty to a valid history does not fail and keeps it valid. Its hashes then
  -- are that of the bytes and behind it the other ones in their order, cut to 200, whether the bytes were
  -- in it or not; and a view that followed the entries by the rows announced still does.
  pub add_entry_lem :
      (s : Stored) (h : ClipboardHistory) → IsValid h → is_empty s.bytes ≡ false → Adds s h
  add_entry_lem s h v some_bytes =
      elim (index_if_lem (has_hash (qt.md5 s.bytes)) h.entries.values_list) [
        | inl (missing, whole, other) ↦ Adds-new s h v some_bytes missing whole other
        | inr (front, z, after, found, cut, rest, t) ↦
            Adds-known s h front z after v found cut rest t
      ]
