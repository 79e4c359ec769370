-- ===== src/Network/Settings/Groups.antt =====
-- What the maps of settings of network/nm/utils.cpp hold after a merge and a removal.
use mcs_qs.Network.Settings.{
  or_nil, erase_key, insert_all, erase_all, KeysDistinct, or_else, lookup-erase_key_self,
  lookup-erase_key_ne, lookup_same, lookup-insert_all, none_if, lookup-erase_all, erase_all_nil,
  group, merge_settings_maps, without_group, remove_settings_in_map,
}
use mcs_qs.Log.{same_bytes}
use mcs_qs.Rules.Find.{same_bytes_sound}
use mcs_qs.Texts.{is_empty, lookup, insert, lookup-insert_self, lookup-insert_ne}
use mcs_qs.Prelude.{
  ℕ, ◌≡◌, inl, inr, Bool-cases, Option-cases, refl, true, some, List, [], ◌∷◌, if◌then◌else◌, ap,
  sym, ◌∙◌,
}

nil_of_is_empty : {A : Type 0} (xs : List A) → is_empty xs ≡ true → xs ≡ []
nil_of_is_empty [] h = refl
nil_of_is_empty (x ∷ xs) h = cc

module _ {V : Type 0} where
  group-insert :
      (g : List ℕ) (values : List (List ℕ × V)) (m : List (List ℕ × List (List ℕ × V)))
      → group g (insert g values m) ≡ values
  group-insert g values m = ap or_nil (lookup-insert_self g values m)

  group-merge :
      (g : List ℕ) (source target : List (List ℕ × List (List ℕ × V)))
      → KeysDistinct source
      → group g (merge_settings_maps target source) ≡ insert_all (group g source) (group g target)
  unfolding merge_settings_maps lookup insert_all
  group-merge g [] target d = refl
  group-merge g ((h, values) ∷ source) target (fresh, d) =
      let next = insert h (insert_all values (group h target)) target in
      elim (Bool-cases (same_bytes h g)) [
        | inl t ↦
            let e : h ≡ g = same_bytes_sound h g t in
            let missing : group g source ≡ [] =
              ap or_nil (ap (λ x. lookup x source) (sym e) ∙ fresh) in
            let now : group g next ≡ insert_all values (group g target) =
              ap (λ x. group x next) (sym e)
              ∙ group-insert h (insert_all values (group h target)) target
              ∙ ap (λ x. insert_all values (group x target)) e in
            rw t
              (group-merge g source next d ∙ ap (λ es. insert_all es (group g next)) missing ∙ now)
        | inr f ↦ rw f (
            group-merge g source next d
            ∙ ap (λ o. insert_all (group g source) (or_nil o))
                (lookup-insert_ne h g (insert_all values (group h target)) target f))
      ]

  -- After a merge a setting has its value in the source if the source has it, and else its value in the
  -- target, where no group and no setting of a group stands twice in the source.
  pub merge_settings_maps_lem :
      (g k : List ℕ) (target source : List (List ℕ × List (List ℕ × V)))
      → KeysDistinct source
      → KeysDistinct (group g source)
      → lookup k (group g (merge_settings_maps target source))
        ≡ or_else (lookup k (group g source)) (lookup k (group g target))
  merge_settings_maps_lem g k target source d d' =
      ap (lookup k) (group-merge g source target d)
      ∙ lookup-insert_all (group g source) (group g target) k d'

  -- A group that is left without settings goes, and is read as the empty group that it is.
  group-left :
      (g h : List ℕ) (keys values : List (List ℕ × V)) (result : List (List ℕ × List (List ℕ × V)))
      → group h result ≡ values
      → group g (without_group h keys (some values) result)
        ≡ (if same_bytes h g then erase_all keys (group g result) else group g result)
  group-left g h keys values result there = elim (Bool-cases (same_bytes h g)) [
    | inl t ↦
        let same : h ≡ g = same_bytes_sound h g t in
        let here : erase_all keys values ≡ erase_all keys (group g result) =
          ap (erase_all keys) (sym there ∙ ap (λ x. group x result) same) in
        elim (Bool-cases (is_empty (erase_all keys values))) [
          | inl e ↦
              rw (t, e)
                (ap or_nil
                    (sym (lookup_same h g (erase_key h result) t) ∙ lookup-erase_key_self h result)
                  ∙ sym (nil_of_is_empty (erase_all keys values) e)
                  ∙ here)
          | inr e ↦
              rw (t, e)
                (ap or_nil (sym (lookup_same h g (insert h (erase_all keys values) result) t))
                  ∙ group-insert h (erase_all keys values) result
                  ∙ here)
        ]
    | inr f ↦ elim (Bool-cases (is_empty (erase_all keys values))) [
      | inl e ↦ rw (f, e) (ap or_nil (lookup-erase_key_ne h g result f))
      | inr e ↦ rw (f, e) (ap or_nil (lookup-insert_ne h g (erase_all keys values) result f))
    ]
  ]

  group-without_group :
      (g h : List ℕ) (keys : List (List ℕ × V)) (result : List (List ℕ × List (List ℕ × V)))
      → group g (without_group h keys (lookup h result) result)
        ≡ (if same_bytes h g then erase_all keys (group g result) else group g result)
  group-without_group g h keys result = elim (Option-cases (lookup h result)) [
    | inl missing ↦
        rw (missing, without_group)
          (elim (Bool-cases (same_bytes h g)) [
            | inl t ↦
                let none_there : group g result ≡ [] =
                  ap or_nil (sym (lookup_same h g result t) ∙ missing) in
                rw t (none_there ∙ sym (erase_all_nil keys) ∙ ap (erase_all keys) (sym none_there))
            | inr f ↦ rw f refl
          ])
    | inr (values, found) ↦
        rw (found, without_group) (group-left g h keys values result (ap or_nil found))
  ]

  group-remove :
      (g : List ℕ) (to_remove result : List (List ℕ × List (List ℕ × V)))
      → KeysDistinct to_remove
      → group g (remove_settings_in_map result to_remove)
        ≡ erase_all (group g to_remove) (group g result)
  unfolding remove_settings_in_map lookup erase_all
  group-remove g [] result d = refl
  group-remove g ((h, keys) ∷ to_remove) result (fresh, d) =
      let next = without_group h keys (lookup h result) result in
      elim (Bool-cases (same_bytes h g)) [
        | inl t ↦
            let missing : group g to_remove ≡ [] =
              ap or_nil (sym (lookup_same h g to_remove t) ∙ fresh) in
            let now : group g next ≡ erase_all keys (group g result) =
              group-without_group g h keys result ∙ rw t refl in
            rw t (
              group-remove g to_remove next d
              ∙ ap (λ es. erase_all es (group g next)) missing
              ∙ now)
        | inr f ↦
            let now : group g next ≡ group g result =
              group-without_group g h keys result ∙ rw f refl in
            rw f (group-remove g to_remove next d ∙ ap (erase_all (group g to_remove)) now)
      ]

  -- After the removal a setting is gone if the map to remove has it, in its group, and is as before if not,
  -- where no group stands twice in that map.
  pub remove_settings_in_map_lem :
      (g k : List ℕ) (target to_remove : List (List ℕ × List (List ℕ × V)))
      → KeysDistinct to_remove
      → lookup k (group g (remove_settings_in_map target to_remove))
        ≡ none_if (lookup k (group g to_remove)) (lookup k (group g target))
  remove_settings_in_map_lem g k target to_remove d =
      ap (lookup k) (group-remove g to_remove target d)
      ∙ lookup-erase_all (group g to_remove) (group g target) k
