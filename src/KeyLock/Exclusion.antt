-- ===== src/KeyLock/Exclusion.antt =====
-- Threads that use a KeyLock as a lock exclude each other, key by key.
use jian_yu_server_lib.Base.{
  ℕ, suc, ◌^◌, ◌≤◌, ◌<◌, ◌≡◌, ◌≢◌, refl, ap, ◌∙◌, sym, true, Option, none, some, arith, length,
  get_elem?, length-replicate, ◌==◌, ==_iff, ◌⊎◌, Option-cases, Bool-cases, inl, inr, ◌⊎◌,
}
use jian_yu_server_lib.Strings.{Str}
use package.jian_yu_server_lib.KeyLock.{
  KeyLock, new_inner_lock, add, done, put, write, insert, lock_found, lock_missing, unlock_found,
}
use package.jian_yu_server_lib.KeyLock.Threads.{
  Pc, idle, missed, waiting, critical, releasing, World, looked_up, looked_again, given_up, set,
  turn, Next, went, fatal, blocked, move, cleaned, Reachable, start, next,
}
use package.jian_yu_server_lib.KeyLock.Tally.{length-set, tally_two, tally_pos}
use mathlib.Core.Path.{subst}
use package.jian_yu_server_lib.KeyLock.Invariant.{moved, holder, IsValid, start-IsValid}
use package.jian_yu_server_lib.KeyLock.Sections.{
  find-IsValid, make-IsValid, acquire-IsValid, done-IsValid, held_of_releasing, release-IsValid,
  clean-IsValid,
}

lock_found-none : (l : KeyLock) (k : Str) → l.locks k ≡ none → lock_found l k ≡ (l, none)
lock_found-none l k e = rw (lock_found, e) refl

lock_found-some :
    (l : KeyLock) (k : Str) (o : ℕ)
    → l.locks k ≡ some o
    → lock_found l k ≡ (write l o (add (l.objs o)), some o)
lock_found-some l k o e = rw (lock_found, e) refl

lock_missing-none :
    (l : KeyLock) (k : Str)
    → l.locks k ≡ none
    → lock_missing l k ≡ (
      record {
        locks = insert l.locks k l.next;
        objs = put l.objs l.next (add new_inner_lock);
        next = suc l.next;
      },
      l.next,
    )
lock_missing-none l k e = rw (lock_missing, e) refl

lock_missing-some :
    (l : KeyLock) (k : Str) (o : ℕ)
    → l.locks k ≡ some o
    → lock_missing l k ≡ (write l o (add (l.objs o)), o)
lock_missing-some l k o e = rw (lock_missing, e) refl

unlock_found-some :
    (l : KeyLock) (k : Str) (o : ℕ)
    → l.locks k ≡ some o
    → unlock_found l k ≡ (write l o (done (l.objs o)), some o)
unlock_found-some l k o e = rw (unlock_found, e) refl

-- What holds after a section: it is no fatal error, and if it was made the invariant holds.
abbrev After : World → ℕ → Next → Type 0
After w i blocked = Unit
After w i fatal = ⊥
After w i (went l pc) = IsValid (record { lock = l; threads = set w.threads i pc })

turn-After :
    (w : World) (i : ℕ) (key : Str) (pc : Pc)
    → length w.threads < 2 ^ 64
    → IsValid w
    → get_elem? w.threads i ≡ some pc
    → After w i (turn key w.lock pc)
turn-After w i key idle few v at = elim (Option-cases (w.lock.locks key)) [
  | inl e ↦
      subst (λ r. After w i (looked_up key r)) (sym (lock_found-none w.lock key e))
        (moved w i idle (missed key) w.lock v at (λ o. refl) (λ o. refl) (λ k o h. h) tt v.made
          v.unmade)
  | inr (o, e) ↦
      subst (λ r. After w i (looked_up key r)) (sym (lock_found-some w.lock key o e))
        (find-IsValid w i idle key o few v at (λ x. refl) (λ x. refl) e)
]
turn-After w i key (missed k) few v at = elim (Option-cases (w.lock.locks k)) [
  | inl e ↦
      subst (λ r. After w i (looked_again k r)) (sym (lock_missing-none w.lock k e))
        (make-IsValid w i (missed k) k v at (λ x. refl) (λ x. refl) e)
  | inr (o, e) ↦
      subst (λ r. After w i (looked_again k r)) (sym (lock_missing-some w.lock k o e))
        (find-IsValid w i (missed k) k o few v at (λ x. refl) (λ x. refl) e)
]
turn-After w i key (waiting k o) few v at = elim (Bool-cases (w.lock.objs o).locked) [
  | inl e ↦ rw (After, e) tt
  | inr e ↦ rw (After, e) (acquire-IsValid w i k o v at e)
]
turn-After w i key (critical k o) few v at =
    subst (λ r. After w i (given_up r)) (sym (unlock_found-some w.lock k o (v.mapped i _ at)))
      (done-IsValid w i k o few v at)
turn-After w i key (releasing o) few v at =
    rw (After, held_of_releasing w i o v at) (release-IsValid w i o v at)

turn-IsValid :
    (w : World) (i : ℕ) (key : Str) (pc pc' : Pc) (l : KeyLock)
    → length w.threads < 2 ^ 64
    → IsValid w
    → get_elem? w.threads i ≡ some pc
    → turn key w.lock pc ≡ went l pc'
    → IsValid (record { lock = l; threads = set w.threads i pc' })
turn-IsValid w i key pc pc' l few v at h = subst (After w i) h (turn-After w i key pc few v at)

Reachable-length : (n : ℕ) (w : World) → Reachable n w → length w.threads ≡ n
Reachable-length n w start = length-replicate n idle
Reachable-length n w (next r (move i key at h)) = length-set _ i _ ∙ Reachable-length n _ r
Reachable-length n w (next r cleaned) = Reachable-length n _ r

pub Reachable-IsValid : (n : ℕ) → n < 2 ^ 64 → (w : World) → Reachable n w → IsValid w
Reachable-IsValid n few w start = start-IsValid n
Reachable-IsValid n few w (next r (move i key at h)) =
    turn-IsValid _ i key _ _ _ (rw (Reachable-length n _ r) few) (Reachable-IsValid n few _ r) at h
Reachable-IsValid n few w (next r cleaned) = clean-IsValid _ (Reachable-IsValid n few _ r)

-- Threads that lock and unlock keys, fewer than 2 ^ 64 of them, with the cleaner running at any
-- time: two threads that are between Lock and Unlock of the same key are the same thread.
pub mutual_exclusion :
    (n : ℕ)
    → n < 2 ^ 64
    → (w : World) → Reachable n w
    → (i j : ℕ) (k : Str) (o o' : ℕ) → get_elem? w.threads i ≡ some (critical k o)
    → get_elem? w.threads j ≡ some (critical k o')
    → i ≡ j
mutual_exclusion n few w r i j k o o' hi hj =
    let v = Reachable-IsValid n few w r in
    elim (Bool-cases (i == j)) [
      | inl e ↦ (==_iff i j).0 e
      | inr e ↦ absurd (
          ground (
            arith,
            v.mapped i _ hi,
            v.mapped j _ hj,
            v.held o,
            tally_two (holder o) w.threads i j _ _ hi hj (λ same. ground (arith, e, same)),
          ))
    ]

-- Among fewer than 2 ^ 64 threads that lock and unlock keys, with the cleaner running at any time,
-- no reachable thread's next section is the fatal unlock of a free mutex, and the first section of
-- Unlock finds in the map the inner lock that the thread locked.
pub unlock_safe :
    (n : ℕ)
    → n < 2 ^ 64
    → (w : World) → Reachable n w
    → (i : ℕ) (pc : Pc) → get_elem? w.threads i ≡ some pc
    → ((key : Str) → turn key w.lock pc ≢ fatal)
      × ((k : Str) (o : ℕ) → pc ≡ critical k o → (unlock_found w.lock k).1 ≡ some o)
unlock_safe n few w r i pc at =
    let v = Reachable-IsValid n few w r in
    (
      λ key h. subst (After w i) h (turn-After w i key pc (rw (Reachable-length n w r) few) v at),
      λ k o e.
          ap (λ r. r.1) (unlock_found-some w.lock k o (v.mapped i (critical k o) (at ∙ ap some e))),
    )

given_up-ne-blocked : (r : KeyLock × Option ℕ) → given_up r ≢ blocked
given_up-ne-blocked (l, none) = ground arith
given_up-ne-blocked (l, some o) = ground arith

abbrev taken : KeyLock → ℕ → KeyLock
taken l o = write l o (record { count = (l.objs o).count; locked = true })

holder-ne-blocked :
    (l : KeyLock) (k : Str) (o : ℕ) (pc : Pc)
    → 1 ≤ holder o pc
    → (holder o pc ≡ 1) × (turn k l pc ≢ blocked)
holder-ne-blocked l k o idle h = absurd (omega arith)
holder-ne-blocked l k o (missed key) h = absurd (omega arith)
holder-ne-blocked l k o (waiting key o') h = absurd (omega arith)
holder-ne-blocked l k o (critical key o') h =
    (ground arith, given_up-ne-blocked (unlock_found l key))
holder-ne-blocked l k o (releasing o') h = (
  ground arith,
  elim (Bool-cases (l.objs o').locked) [
    | inl e ↦ rw (turn, e) (ground arith)
    | inr e ↦ rw (turn, e) (ground arith)
  ],
)

-- In a reachable state of fewer than 2 ^ 64 threads, a thread that waits for a key can go on, or
-- some thread has the mutex that it waits for, is between Lock and Unlock or inside Unlock, and is
-- not blocked itself.
pub waiting_progress :
    (n : ℕ)
    → n < 2 ^ 64
    → (w : World) → Reachable n w
    → (i : ℕ) (k : Str) (o : ℕ) → get_elem? w.threads i ≡ some (waiting k o)
    → ((l : KeyLock) × (turn k w.lock (waiting k o) ≡ went l (critical k o)))
      ⊎ ((j : ℕ) × (pc : Pc) × (get_elem? w.threads j ≡ some pc)
          × (holder o pc ≡ 1)
          × (turn k w.lock pc ≢ blocked))
waiting_progress n few w r i k o at =
    let v = Reachable-IsValid n few w r in
    elim (Bool-cases (w.lock.objs o).locked) [
      | inr e ↦ inl (taken w.lock o, rw (turn, e) refl)
      | inl e ↦
          let (j, pc, hj, pos) = tally_pos (holder o) w.threads (ground (arith, v.held o)) in
          let (one, moves) = holder-ne-blocked w.lock k o pc pos in inr (j, pc, hj, one, moves)
    ]
