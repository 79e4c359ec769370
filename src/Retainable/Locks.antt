-- ===== src/Retainable/Locks.antt =====
-- The references that a `RetainableLock` of core/retainable.cpp takes and gives back.
use mcs_qs.Retainable.{Object, u32, no_lock, set_object, set_locked, destroy_lock}
use mcs_qs.Prelude.{◌+◌, ◌-◌, ◌<◌, ◌≡◌, arith, true, false, ◌==◌, if◌then◌else◌}

-- A lock that is enabled, given the object, disabled and freed of it.
unfoldable pub enabled_first : Object → Object
unfolding set_object set_locked
enabled_first o =
    let (l1, o1) = set_locked true no_lock o in
    let (l2, o2) = set_object true l1 o1 in
    let (l3, o3) = set_locked false l2 o2 in (set_object false l3 o3).1

-- A lock that is given the object, enabled and destroyed.
unfoldable pub object_first : Object → Object
unfolding set_object set_locked destroy_lock
object_first o =
    let (l1, o1) = set_object true no_lock o in
    let (l2, o2) = set_locked true l1 o1 in destroy_lock l2 o2

-- A lock does not give back what it takes: in one order it gives back a reference more, so that an object
-- that was dropped is finished although its last reference is another holder's; in the other it keeps one.
pub locks_unbalanced :
    (o : Object)
    → o.inactive ≡ false
    → 0 < o.refcount
    → o.refcount + 2 < u32
    → ((enabled_first o).refcount ≡ o.refcount - 1)
      × ((enabled_first o).explicit_refcount ≡ o.explicit_refcount)
      × ((enabled_first o).finished ≡ o.finished + (if o.refcount == 1 then 1 else 0))
      × ((object_first o).refcount ≡ o.refcount + 1)
unfolding enabled_first object_first
locks_unbalanced o d some_refs small = (ground arith, ground arith, ground arith, ground arith)
