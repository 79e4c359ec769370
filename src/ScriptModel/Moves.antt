-- ===== src/ScriptModel/Moves.antt =====
-- Moving rows one by one moves the whole run.
use mathlib.Core.List.{append_assoc}
use mcs_qs.Prelude.{
  ℕ, suc, ◌+◌, ◌≡◌, refl, arith, List, [], ◌∷◌, ◌++◌, length, take, drop, ap, sym, ◌∙◌,
  take-length_append, drop-length_append, length-append,
}
use mcs_qs.ScriptModel.{move_row, move_rows, insert_row}

module _ {ℓ} {A : Type ℓ} where
  length-append_one : (xs : List A) (x : A) → length (xs ++ x ∷ []) ≡ suc (length xs)
  length-append_one xs x = omega (arith, length-append xs (x ∷ []))

  pub take_at : (xs ys : List A) (n : ℕ) → n ≡ length xs → take n (xs ++ ys) ≡ xs
  take_at xs ys n e = rw e (take-length_append xs ys)

  pub drop_at : (xs ys : List A) (n : ℕ) → n ≡ length xs → drop n (xs ++ ys) ≡ ys
  drop_at xs ys n e = rw e (drop-length_append xs ys)

  drop_past :
      (xs : List A) (x : A) (ys : List A) (n : ℕ) → n ≡ length xs → drop (suc n) (xs ++ x ∷ ys) ≡ ys
  drop_past [] x ys n e = rw e refl
  drop_past (z ∷ xs) x ys n e = rw e (drop_past xs x ys (length xs) refl)

  -- The list `front`, then `between`, then a row and what follows it: the row comes before `between`.
  move_row_lem :
      (front between : List A) (x : A) (after : List A) (from to : ℕ)
      → from ≡ length front + length between
      → to ≡ length front
      → move_row from to (front ++ (between ++ x ∷ after)) ≡ front ++ (x ∷ (between ++ after))
  unfolding move_row insert_row
  move_row_lem front between x after from to ef et =
      let n : from ≡ length (front ++ between) = omega (arith, length-append front between) in
      rw (
        sym (append_assoc front between (x ∷ after)),
        drop_at (front ++ between) (x ∷ after) from n,
        take_at (front ++ between) (x ∷ after) from n,
        drop_past (front ++ between) x after from n,
        append_assoc front between after,
        take_at front (between ++ after) to et,
        drop_at front (between ++ after) to et,
      )

  pub move_rows_lem :
      (front between run after : List A) (from to : ℕ)
      → from ≡ length front + length between
      → to ≡ length front
      → move_rows (length run) from to (front ++ (between ++ (run ++ after)))
        ≡ front ++ (run ++ (between ++ after))
  unfolding move_rows
  move_rows_lem front between [] after from to ef et = refl
  move_rows_lem front between (x ∷ run) after from to ef et =
      let back : List A = between ++ (run ++ after) in
      let step = move_row_lem front between x (run ++ after) from to ef et in
      let shift : (rest : List A) → front ++ (x ∷ rest) ≡ (front ++ x ∷ []) ++ rest =
        λ rest. sym (append_assoc front (x ∷ []) rest) in
      let l : length (front ++ x ∷ []) ≡ suc (length front) = length-append_one front x in
      ap (move_rows (length run) (suc from) (suc to)) (step ∙ shift back)
      ∙ (move_rows_lem (front ++ x ∷ []) between run after (suc from) (suc to) (omega (arith, l))
            (omega (arith, l))
          ∙ sym (shift (run ++ (between ++ after))))
