-- ===== src/Retainable/Releases.antt =====
-- A dropped object of core/retainable.cpp is finished by the release of its last reference.
use mcs_qs.Retainable.{Object, u32, unref, unlock, retained_destroy}
use mcs_qs.Prelude.{
  ℕ, suc, ◌+◌, ◌-◌, ◌≤◌, ◌<◌, ◌≡◌, arith, true, false, List, [], ◌∷◌, length, ◌==◌, if◌then◌else◌,
}

-- The calls that give a reference back.
pub data Release : Type 0 where
  by_unref : Release
  by_unlock : Release

unfoldable pub release : Release → Object → Object
release by_unref o = unref o
release by_unlock o = unlock o

unfoldable pub release_all : List Release → Object → Object
release_all [] o = o
release_all (r ∷ rs) o = release_all rs (release r o)

-- How many of them are calls of `unlock`.
unfoldable pub unlocks : List Release → ℕ
unlocks [] = 0
unlocks (by_unref ∷ rs) = unlocks rs
unlocks (by_unlock ∷ rs) = suc (unlocks rs)

record Released (r : Release) (k : ℕ) (o o' : Object) : Type 0 where
  counted : o'.refcount ≡ o.refcount - 1
  left : k ≤ o'.explicit_refcount
  dropped : o'.inactive ≡ false
  unfinished : 1 < o.refcount → o'.finished ≡ o.finished
  finishes : o.refcount ≡ 1 → o'.finished ≡ o.finished + 1

release_lem :
    (r : Release) (rs : List Release) (o : Object)
    → o.inactive ≡ false
    → 0 < o.refcount
    → o.refcount < u32
    → unlocks (r ∷ rs) ≤ o.explicit_refcount
    → Released r (unlocks rs) o (release r o)
unfolding release unref unlock unlocks
release_lem by_unref rs o d pos' small enough = record {
  counted = ground arith;
  left = ground arith;
  dropped = ground arith;
  unfinished = λ h. ground arith;
  finishes = λ h. ground arith;
}
release_lem by_unlock rs o d pos' small enough = record {
  counted = ground arith;
  left = ground arith;
  dropped = ground arith;
  unfinished = λ h. ground arith;
  finishes = λ h. ground arith;
}

-- While an object that was dropped keeps a reference, it is not finished; the release of the last one
-- finishes it, once. References are given back by `unref` or, as often as the object is locked, by `unlock`.
release_all_lem :
    (rs : List Release) (o : Object)
    → o.inactive ≡ false
    → o.refcount < u32
    → 0 < o.refcount
    → length rs ≤ o.refcount
    → unlocks rs ≤ o.explicit_refcount
    → ((release_all rs o).refcount ≡ o.refcount - length rs)
      × ((release_all rs o).finished ≡ o.finished + (if length rs == o.refcount then 1 else 0))
unfolding release_all
release_all_lem [] o d small pos' few enough = (omega arith, ground arith)
release_all_lem (r ∷ []) o d small pos' few enough =
    let k = release_lem r [] o d pos' small enough in
    (omega (arith, k.counted), ground (arith, k.unfinished, k.finishes))
release_all_lem (r ∷ r' ∷ rs) o d small pos' few enough =
    let k = release_lem r (r' ∷ rs) o d pos' small enough in
    let more : 1 < o.refcount = omega arith in
    let (count, done) =
      release_all_lem (r' ∷ rs) (release r o) k.dropped (omega (arith, k.counted))
        (omega (arith, k.counted)) (omega (arith, k.counted)) k.left in
    (omega (arith, count, k.counted), ground (arith, done, k.unfinished more, k.counted))

record Dropped (o o' : Object) : Type 0 where
  counted : o'.refcount ≡ o.refcount
  left : o'.explicit_refcount ≡ o.explicit_refcount
  dropped : o'.inactive ≡ false
  finishes : o'.finished ≡ o.finished + (if o.refcount == 0 then 1 else 0)

retained_destroy_lem : (o : Object) → o.has_hook ≡ true → Dropped o (retained_destroy o)
unfolding retained_destroy
retained_destroy_lem o hook = record {
  counted = ground arith;
  left = ground arith;
  dropped = ground arith;
  finishes = ground arith;
}

-- An object with a hook that is dropped is finished when as many references are given back as it had, at
-- once if it had none, and not before. They are given back by `unref` or, at most as often as the object
-- is locked, by `unlock`.
pub retained_destroy-release_all :
    (rs : List Release) (o : Object)
    → o.has_hook ≡ true
    → o.refcount < u32
    → length rs ≤ o.refcount
    → unlocks rs ≤ o.explicit_refcount
    → ((release_all rs (retained_destroy o)).refcount ≡ o.refcount - length rs)
      × ((release_all rs (retained_destroy o)).finished
          ≡ o.finished + (if length rs == o.refcount then 1 else 0))
unfolding release_all
retained_destroy-release_all [] o hook small few enough =
    let k = retained_destroy_lem o hook in (omega (arith, k.counted), ground (arith, k.finishes))
retained_destroy-release_all (r ∷ rs) o hook small few enough =
    let k = retained_destroy_lem o hook in
    let (count, done) =
      release_all_lem (r ∷ rs) (retained_destroy o) k.dropped (omega (arith, k.counted))
        (omega (arith, k.counted)) (omega (arith, k.counted)) (omega (arith, k.left)) in
    (omega (arith, count, k.counted), ground (arith, done, k.finishes, k.counted))
