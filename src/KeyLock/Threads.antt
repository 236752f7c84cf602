-- ===== src/KeyLock/Threads.antt =====
-- Threads that lock a key and unlock it again, any number of times, and the cleaner.
use jian_yu_server_lib.Base.{
  ℕ, zero, suc, ◌≡◌, Option, none, some, List, [], ◌∷◌, replicate, get_elem?,
}
use jian_yu_server_lib.Base.Outcome.{returned, panicked}
use jian_yu_server_lib.Strings.{Str}
use package.jian_yu_server_lib.KeyLock.{
  KeyLock, new_key_lock, lock_found, lock_missing, mutex_lock, unlock_found, mutex_unlock, clean,
}

-- Where a thread stands: outside; in Lock, without and with an inner lock; between Lock and Unlock;
-- in Unlock, with the inner lock that it found.
pub data Pc : Type 0 where
  idle : Pc
  missed : Str → Pc
  waiting : Str → ℕ → Pc
  critical : Str → ℕ → Pc
  releasing : ℕ → Pc

pub data Next : Type 0 where
  blocked : Next
  fatal : Next
  went : KeyLock → Pc → Next

abbrev pub looked_up : Str → KeyLock × Option ℕ → Next
looked_up key (l, none) = went l (missed key)
looked_up key (l, some o) = went l (waiting key o)

abbrev pub looked_again : Str → KeyLock × ℕ → Next
looked_again key (l, o) = went l (waiting key o)

abbrev pub given_up : KeyLock × Option ℕ → Next
given_up (l, none) = went l idle
given_up (l, some o) = went l (releasing o)

-- The next section of a thread's code; `key` is what it locks if it is outside.
abbrev pub turn : Str → KeyLock → Pc → Next
turn key l idle = looked_up key (lock_found l key)
turn key l (missed k) = looked_again k (lock_missing l k)
turn key l (waiting k o) = elim (mutex_lock l o) [
  | none ↦ blocked
  | some l' ↦ went l' (critical k o)
]
turn key l (critical k o) = given_up (unlock_found l k)
turn key l (releasing o) = elim (mutex_unlock l o) [ panicked ↦ fatal | returned l' ↦ went l' idle ]

pub record World : Type 0 where
  pub lock : KeyLock
  pub threads : List Pc

abbrev pub set {ℓ} : {A : Type ℓ} → List A → ℕ → A → List A
set [] i a = []
set (x ∷ xs) zero a = a ∷ xs
set (x ∷ xs) (suc i) a = x ∷ set xs i a

-- One section of one thread, or a run of the cleaner.
pub data Step : World → World → Type 0 where
  move :
      {w : World} (i : ℕ) (key : Str) {pc pc' : Pc} {l : KeyLock}
      → get_elem? w.threads i ≡ some pc
      → turn key w.lock pc ≡ went l pc'
      → Step w (record { lock = l; threads = set w.threads i pc' })
  cleaned : {w : World} → Step w (record { lock = clean w.lock; threads = w.threads })

-- What n threads can come to.
pub data Reachable (n : ℕ) : World → Type 0 where
  start : Reachable n (record { lock = new_key_lock; threads = replicate n idle })
  next : {w w' : World} → Reachable n w → Step w w' → Reachable n w'
