-- ===== src/StreamReader/Transactions.antt =====
-- Transactions: from `startTransaction` over reads to `commitTransaction`.
use mcs_qs.Prelude.{
  ℕ, ◌≡◌, ◌⊎◌, refl, arith, Bool, true, false, List, [], ◌∷◌, ◌++◌, length, take, drop, inl, inr,
  ap, sym, ◌∙◌, take-drop,
}
use mathlib.Core.List.{append_assoc, append-nil}
use mcs_qs.StreamReader.{
  Device, StreamReader, start_transaction, read_bytes, read_until, commit_transaction,
}
use mcs_qs.StreamReader.Reading.{stream, consumed, Outcome, Reads, IsOpen, read_bytes-Outcome}
use mcs_qs.StreamReader.Until.{EndsWith, read_until-Outcome}

-- The reads of a transaction: so many bytes, or up to a terminator.
pub data Op : Type 0 where
  bytes_op until_op : ℕ → Op

-- What a read gives if it does not fail.
abbrev pub Answers : Op → List ℕ → Type 0
Answers (bytes_op n) x = length x ≡ n
Answers (until_op c) x = EndsWith c x

abbrev pub AllAnswer : List Op → List (List ℕ) → Type 0
AllAnswer [] [] = Unit {0}
AllAnswer [] (x ∷ xs) = ⊥
AllAnswer (o ∷ os) [] = ⊥
AllAnswer (o ∷ os) (x ∷ xs) = Answers o x × AllAnswer os xs

abbrev pub join : List (List ℕ) → List ℕ
join [] = []
join (x ∷ xs) = x ++ join xs

module _ (dev : Device) where
  abbrev pub run_op : Op → StreamReader dev → List ℕ × StreamReader dev
  run_op (bytes_op n) r = read_bytes dev n r
  run_op (until_op c) r = read_until dev c r

  unfoldable pub run_ops : List Op → StreamReader dev → List (List ℕ) × StreamReader dev
  run_ops [] r = ([], r)
  run_ops (o ∷ os) r = let (x, r') = run_op o r in let (xs, r'') = run_ops os r' in (x ∷ xs, r'')

  unfoldable pub transaction :
      List Op → StreamReader dev → Bool × (List (List ℕ) × StreamReader dev)
  transaction os r =
      let (xs, r') = run_ops os (start_transaction dev r) in
      let (ok, r'') = commit_transaction dev r' in (ok, (xs, r''))

  run_op-Outcome :
      (o : Op) (r : StreamReader dev) → IsOpen dev r → Outcome dev (Answers o) r (run_op o r)
  run_op-Outcome (bytes_op n) r v = read_bytes-Outcome dev n r v
  run_op-Outcome (until_op c) r v = read_until-Outcome dev c r v

  -- A read after one that failed reads nothing.
  run_op_failed : (o : Op) (r : StreamReader dev) → r.failed ≡ true → run_op o r ≡ ([], r)
  unfolding read_bytes read_until
  run_op_failed (bytes_op n) r e = simp e refl
  run_op_failed (until_op c) r e = simp e refl

  run_ops_failed : (os : List Op) (r : StreamReader dev) → r.failed ≡ true → (run_ops os r).1 ≡ r
  unfolding run_ops
  run_ops_failed [] r e = refl
  run_ops_failed (o ∷ os) r e = simp (run_op_failed o r e) (run_ops_failed os r e)

  abbrev AllRead : List Op → StreamReader dev → List (List ℕ) × StreamReader dev → Type 0
  AllRead os r (xs, r') =
      (IsOpen dev r'
        × ((consumed dev r' ≡ consumed dev r ++ join xs)
            × ((stream dev r' ≡ stream dev r) × AllAnswer os xs)))
      ⊎ ((r'.failed ≡ true) × (stream dev r' ≡ stream dev r))

  AllRead-cons :
      (o : Op) (os : List Op) (x : List ℕ) (r r' : StreamReader dev)
      (rest : List (List ℕ) × StreamReader dev)
      → Reads dev x r r'
      → Answers o x
      → AllRead os r' rest
      → AllRead (o ∷ os) r (x ∷ rest.0, rest.1)
  AllRead-cons o os x r r' (xs, r'') g a (inl (v, (c, (s, p)))) = inl (
    v,
    (
      c ∙ rw g.consumed_then (append_assoc (consumed dev r) x (join xs)),
      (s ∙ g.same_stream, (a, p)),
    ),
  )
  AllRead-cons o os x r r' (xs, r'') g a (inr (f, s)) = inr (f, s ∙ g.same_stream)

  then-AllRead :
      (o : Op) (os : List Op) (r : StreamReader dev) (out : List ℕ × StreamReader dev)
      → Outcome dev (Answers o) r out
      → (IsOpen dev out.1 → AllRead os out.1 (run_ops os out.1))
      → AllRead (o ∷ os) r (out.0 ∷ (run_ops os out.1).0, (run_ops os out.1).1)
  then-AllRead o os r (x, r') (inl (g, a)) ih =
      AllRead-cons o os x r r' (run_ops os r') g a (ih (record { within = g.within; ok = g.ok }))
  then-AllRead o os r (x, r') (inr (n, g)) ih =
      let e : (run_ops os r').1 ≡ r' = run_ops_failed os r' g.bad in
      inr (ap (λ q. q.failed) e ∙ g.bad, ap (stream dev) e ∙ g.same_stream)

  run_ops-AllRead :
      (os : List Op) (r : StreamReader dev) → IsOpen dev r → AllRead os r (run_ops os r)
  unfolding run_ops
  run_ops-AllRead [] r v = inl (v, (sym (append-nil (consumed dev r)), (refl, tt)))
  run_ops-AllRead (o ∷ os) r v =
      then-AllRead o os r (run_op o r) (run_op-Outcome o r v) (run_ops-AllRead os (run_op o r).1)

  -- What a transaction comes to.
  abbrev pub IsAtomic :
      List Op → StreamReader dev → Bool × (List (List ℕ) × StreamReader dev) → Type 0
  IsAtomic os r (ok, (xs, r')) =
      ((ok ≡ true) × ((stream dev r ≡ join xs ++ stream dev r') × AllAnswer os xs))
      ⊎ ((ok ≡ false) × (stream dev r' ≡ stream dev r))

  commit-IsAtomic :
      (os : List Op) (r : StreamReader dev) (out : List (List ℕ) × StreamReader dev)
      → AllRead os (start_transaction dev r) out
      → IsAtomic os r ((commit_transaction dev out.1).0, (out.0, (commit_transaction dev out.1).1))
  unfolding commit_transaction
  commit-IsAtomic os r (xs, r') (inl (v, (c, (s, a)))) = simp v.ok (
      inl (
        refl,
        (
          sym s
              ∙ ap (λ b. b ++ dev.pending r'.device) (take-drop r'.cursor r'.buffer)
              ∙ append_assoc (take r'.cursor r'.buffer) (drop r'.cursor r'.buffer)
                  (dev.pending r'.device)
              ∙ ap (λ ys. ys ++ (drop r'.cursor r'.buffer ++ dev.pending r'.device)) c,
          a,
        ),
      ))
  commit-IsAtomic os r (xs, r') (inr (f, s)) = simp f (inr (refl, s))

  -- A transaction that is committed hands out, read by read, exactly the bytes that it takes off the front
  -- of what the buffer and the device hold: as many bytes as were asked for, or the bytes up to the first
  -- terminator. One that fails takes none. Neither depends on how the bytes arrive.
  pub transaction_lem : (os : List Op) (r : StreamReader dev) → IsAtomic os r (transaction os r)
  unfolding transaction
  transaction_lem os r =
      let start = start_transaction dev r in
      commit-IsAtomic os r (run_ops os start)
        (run_ops-AllRead os start (record { within = omega arith; ok = refl }))
