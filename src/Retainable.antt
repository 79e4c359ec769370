-- ===== src/Retainable.antt =====
-- `Retainable`, its hook and `RetainableLock` of core/retainable.cpp: one object, the references to its
-- hook, and the locks on it. Signals are left out; the counts are 32-bit words, and `finished` counts the
-- calls of `retainFinished`, which delete the object later.
pub mod Releases
pub mod Locks
use mcs_qs.Prelude.{
  ℕ, zero, suc, ◌+◌, ◌-◌, ◌%◌, Bool, true, false, ◌&&◌, not, List, [], ◌∷◌, ltb, ◌==◌,
  if◌then◌else◌,
}

abbrev pub u32 : ℕ
u32 = 4294967296

-- The object and, if `has_hook`, its hook.
pub record Object : Type 0 where
  pub has_hook : Bool
  pub refcount : ℕ
  pub explicit_refcount : ℕ
  pub inactive : Bool
  pub retaining : Bool
  pub finished : ℕ

unfoldable pub retain_finished : Object → Object
retain_finished o = record o { finished = o.finished + 1 }

unfoldable pub unlocked : Object → Object
unfolding retain_finished
unlocked o = if o.inactive then o else retain_finished o

unfoldable pub ref : Object → Object
ref o = record o { refcount = (o.refcount + 1) % u32 }

unfoldable pub unref : Object → Object
unfolding unlocked
unref o =
    let count = (o.refcount + u32 - 1) % u32 in
    let released = record o { refcount = count } in
    if count == 0 then unlocked released else released

unfoldable pub lock : Object → Object
unfolding ref
lock o = ref (record o { explicit_refcount = (o.explicit_refcount + 1) % u32 })

unfoldable pub unlock : Object → Object
unfolding unref
unlock o =
    if ltb o.explicit_refcount 1
    then o
    else unref (record o { explicit_refcount = o.explicit_refcount - 1 })

unfoldable pub force_unlock : Object → Object
unfolding unlocked
force_unlock o = unlocked o

unfoldable pub retained_destroy : Object → Object
unfolding unlocked retain_finished
retained_destroy o =
    if o.has_hook
    then (let dropped = record o { retaining = true; inactive = false } in
        if o.refcount == 0 then unlocked dropped else dropped)
    else retain_finished (record o { retaining = true })

-- A lock, with or without the object as its target.
pub record RetainableLock : Type 0 where
  pub is_enabled : Bool
  pub has_object : Bool

abbrev same_bool : Bool → Bool → Bool
same_bool true b = b
same_bool false b = not b

-- The target is the object, or nothing. The first access to the hook makes it.
unfoldable pub set_object : Bool → RetainableLock → Object → RetainableLock × Object
unfolding ref unref
set_object target l o =
    if same_bool target l.has_object
    then (l, o)
    else if target
    then (record l { has_object = true }, ref (record o { has_hook = true }))
    else (record l { has_object = false }, unref o)

unfoldable pub on_object_destroyed : RetainableLock → RetainableLock
on_object_destroyed l = record l { has_object = false }

unfoldable pub set_locked : Bool → RetainableLock → Object → RetainableLock × Object
unfolding ref unref
set_locked locked l o = if same_bool locked l.is_enabled then (l, o) else (
  record l { is_enabled = locked },
  if l.has_object then if locked then ref o else unref o else o,
)

-- The destructor of a lock.
unfoldable pub destroy_lock : RetainableLock → Object → Object
unfolding unref
destroy_lock l o = if l.is_enabled && l.has_object then unref o else o

abbrev pub no_lock : RetainableLock
no_lock = record { is_enabled = false; has_object = false }
