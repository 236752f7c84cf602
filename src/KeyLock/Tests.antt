-- ===== src/KeyLock/Tests.antt =====
-- Two threads and one key.
use jian_yu_server_lib.Base.{true, ℕ, ◌≡◌, ◌≢◌, ◌⊎◌, refl, some, [], ◌∷◌, arith, get_elem?}
use jian_yu_server_lib.Strings.{Str, str, str_eq}
use package.jian_yu_server_lib.KeyLock.{
  KeyLock, new_key_lock, lock_missing, lock_found, unlock_found, write,
}
use package.jian_yu_server_lib.KeyLock.Threads.{
  Pc, waiting, critical, World, turn, went, fatal, blocked, move, Reachable, start, next,
}
use package.jian_yu_server_lib.KeyLock.Invariant.{holder}
use package.jian_yu_server_lib.KeyLock.Exclusion.{mutual_exclusion, unlock_safe, waiting_progress}

abbrev key : Str
key = str "u1"

abbrev one_in : KeyLock
one_in = write (lock_missing new_key_lock key).0 0 (record { count = 1; locked = true })

-- The first thread has the lock and the second one waits for it.
abbrev contended : World
contended = record {
  lock = (lock_found one_in key).0;
  threads = critical key 0 ∷ waiting key 0 ∷ [];
}

contended-Reachable : Reachable 2 contended
unfolding str str_eq
contended-Reachable =
    next
      (next (next (next start (move 0 key refl refl)) (move 0 key refl refl))
        (move 0 key refl refl))
      (move 1 key refl refl)

mutual_exclusion_example : ◌≡◌ {A = ℕ} 0 0
mutual_exclusion_example =
    mutual_exclusion 2 (omega arith) contended contended-Reachable 0 0 key 0 0 refl refl

unlock_safe_example :
    ((k : Str) → turn k contended.lock (critical key 0) ≢ fatal)
    × ((k : Str) (o : ℕ)
        → critical key 0 ≡ critical k o
        → (unlock_found contended.lock k).1 ≡ some o)
unlock_safe_example =
    unlock_safe 2 (omega arith) contended contended-Reachable 0 (critical key 0) refl

waiting_progress_example :
    ((l : KeyLock) × (turn key contended.lock (waiting key 0) ≡ went l (critical key 0)))
    ⊎ ((j : ℕ) × (pc : Pc) × (get_elem? contended.threads j ≡ some pc)
        × (holder 0 pc ≡ 1)
        × (turn key contended.lock pc ≢ blocked))
waiting_progress_example =
    waiting_progress 2 (omega arith) contended contended-Reachable 1 key 0 refl
