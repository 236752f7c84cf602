-- ===== src/KeyLock.antt =====
-- pkg/keylock/keylock.go: a mutex per key, made on demand and cleaned up when nobody uses it. Each
-- section that the map's own lock guards is one function; the inner locks are objects that the map
-- and the callers share.
pub mod Threads
pub mod Tally
pub mod Invariant
pub mod Sections
pub mod Exclusion
mod Tests
use jian_yu_server_lib.Base.{
  ℕ, suc, ◌+◌, ◌-◌, ◌%◌, ◌^◌, Bool, true, false, Option, none, some, ◌==◌, if◌then◌else◌,
}
use jian_yu_server_lib.Base.Outcome.{Outcome, returned, panicked}
use jian_yu_server_lib.Strings.{Str, str_eq}

-- `count` is an int64, here by its bits; `locked` is the embedded sync.Mutex.
pub record InnerLock : Type 0 where
  pub count : ℕ
  pub locked : Bool

-- The map, and the memory that holds the inner locks: those below `next` have been made.
pub record KeyLock : Type 0 where
  pub locks : Str → Option ℕ
  pub objs : ℕ → InnerLock
  pub next : ℕ

-- newInnerLock
abbrev pub new_inner_lock : InnerLock
new_inner_lock = record { count = 0; locked = false }

-- NewKeyLock
abbrev pub new_key_lock : KeyLock
new_key_lock = record { locks = λ key. none; objs = λ o. new_inner_lock; next = 0 }

-- add
abbrev pub add : InnerLock → InnerLock
add il = record { count = (il.count + 1) % 2 ^ 64; locked = il.locked }

-- done
abbrev pub done : InnerLock → InnerLock
done il = record { count = (il.count + (2 ^ 64 - 1)) % 2 ^ 64; locked = il.locked }

abbrev pub put : (ℕ → InnerLock) → ℕ → InnerLock → ℕ → InnerLock
put objs o il x = if x == o then il else objs x

abbrev pub write : KeyLock → ℕ → InnerLock → KeyLock
write l o il = record { locks = l.locks; objs = put l.objs o il; next = l.next }

-- The part of Lock under `mutex.RLock`.
abbrev pub lock_found : KeyLock → Str → KeyLock × Option ℕ
lock_found l key = elim (l.locks key) [
  | none ↦ (l, none)
  | some o ↦ (write l o (add (l.objs o)), some o)
]

abbrev pub insert : (Str → Option ℕ) → Str → ℕ → Str → Option ℕ
insert locks key o k = if str_eq k key then some o else locks k

-- The part of Lock under `mutex.Lock`: the map is looked at again, since another caller may have
-- made the lock meanwhile.
abbrev pub lock_missing : KeyLock → Str → KeyLock × ℕ
lock_missing l key = elim (l.locks key) [
  | none ↦ (
    record {
      locks = insert l.locks key l.next;
      objs = put l.objs l.next (add new_inner_lock);
      next = suc l.next;
    },
    l.next,
  )
  | some o ↦ (write l o (add (l.objs o)), o)
]

-- `keyLock.Lock()`: none while the mutex is taken.
abbrev pub mutex_lock : KeyLock → ℕ → Option KeyLock
mutex_lock l o =
    let il = l.objs o in
    if il.locked then none else some (write l o (record { count = il.count; locked = true }))

-- The part of Unlock under `mutex.RLock`.
abbrev pub unlock_found : KeyLock → Str → KeyLock × Option ℕ
unlock_found l key = elim (l.locks key) [
  | none ↦ (l, none)
  | some o ↦ (write l o (done (l.objs o)), some o)
]

-- `keyLock.Unlock()`, a fatal error if the mutex is free.
abbrev pub mutex_unlock : KeyLock → ℕ → Outcome KeyLock
mutex_unlock l o =
    let il = l.objs o in
    if il.locked
    then returned (write l o (record { count = il.count; locked = false }))
    else panicked

-- Clean
abbrev pub clean : KeyLock → KeyLock
clean l = record {
  locks = λ key. elim (l.locks key) [
    | none ↦ none
    | some o ↦ if (l.objs o).count == 0 then none else some o
  ];
  objs = l.objs;
  next = l.next;
}
