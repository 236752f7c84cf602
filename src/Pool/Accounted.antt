-- ===== src/Pool/Accounted.antt =====
-- The dispatcher loses no job and runs none twice.
use mathlib.Core.List.{Perm, perm_middle}
use mathlib.Core.List.Perm
use mathlib.Core.Option.{some-injective}
use jian_yu_server_lib.Base.Int.{ℤ, pos}
use jian_yu_server_lib.Base.{
  ℕ, ◌+◌, ◌^◌, ◌<◌, ◌≡◌, refl, sym, ◌∙◌, false, ◌||◌, some, List, ◌∷◌, ◌++◌, arith,
}
use jian_yu_server_lib.Pool.Dispatcher.{
  Submitted, blocks, refuses, accepts, Ants, Collector, start_dispatcher, will_full, loop_pop,
  Reaches, started, receives, turns, ends, accounted, held_jobs,
}

module _ {ℓ} {A : Type ℓ} {worker_count : ℤ} (ants : Ants A worker_count) where
  -- The warning needs more tasks in the pool than there can be.
  will_full-false :
      (n : ℕ)
      → worker_count ≡ pos n
      → 0 < n
      → n + 1 < 2 ^ 63
      → (p : ants.P) → will_full ants p ≡ false
  unfolding will_full
  will_full-false n e positive fits p =
      rw (will_full, e) (ground (arith, ants.running_bound n e positive p))

  loop_pop-accounted :
      (c c' : Collector ants) (job : A) (s : Submitted ants.P)
      → ants.submit c.pool job ≡ s
      → loop_pop ants c job ≡ some c'
      → Perm (accounted ants c') (job ∷ (ants.tasks c.pool ++ (c.ended ++ c.failed)))
        × (c'.warned ≡ (c.warned || will_full ants c.pool))
  unfolding loop_pop
  loop_pop-accounted c c' job blocks e h = absurd (cc (rw (e, loop_pop) at h))
  loop_pop-accounted c c' job refuses e h = rw (sym (some-injective _ _ (rw (e, loop_pop) at h))) (
    Perm.trans (Perm.append_left (ants.tasks c.pool) (perm_middle c.ended c.failed))
        (perm_middle (ants.tasks c.pool) (c.ended ++ c.failed)),
    refl,
  )
  loop_pop-accounted c c' job (accepts p) e h =
      rw (sym (some-injective _ _ (rw (e, loop_pop) at h)))
        (Perm.append_right (c.ended ++ c.failed) (ants.tasks-accepts c.pool p job e), refl)

  -- Where workerCount is above 0 and below the greatest int64: however the jobs and the ends of tasks follow each other, every job that the dispatcher has
  -- received is held by the loop, runs in the pool, has ended, or has been refused by the pool, as
  -- often as it was received; and the loop never warns that the pool will be full.
  pub dispatcher_accounts :
      {c : Collector ants} {jobs : List A} {n : ℕ}
      → worker_count ≡ pos n
      → 0 < n
      → n + 1 < 2 ^ 63
      → Reaches ants c jobs
      → Perm (accounted ants c) jobs × (c.warned ≡ false)
  unfolding start_dispatcher
  dispatcher_accounts count positive fits started = rw ants.tasks-new (Perm.nil, refl)
  dispatcher_accounts count positive fits (receives {c} {jobs} job r idle) =
      let (perm, quiet) = dispatcher_accounts count positive fits r in
      (Perm.cons job (rw (idle, held_jobs) at perm), quiet)
  dispatcher_accounts count positive fits (turns {c} {c'} {jobs} job r busy h) =
      let (perm, quiet) = dispatcher_accounts count positive fits r in
      let (moved, warns) = loop_pop-accounted c c' job (ants.submit c.pool job) refl h in
      (
        Perm.trans moved (rw (busy, held_jobs) at perm),
        warns ∙ rw (quiet, will_full-false _ count positive fits c.pool) refl,
      )
  dispatcher_accounts count positive fits (ends {c} {jobs} job p r h) =
      let (perm, quiet) = dispatcher_accounts count positive fits r in
      let rest = c.ended ++ c.failed in
      (
        Perm.trans
            (Perm.append_left (held_jobs ants c.held) (
              Perm.trans (perm_middle (ants.tasks p) rest)
                (Perm.append_right rest (Perm.symm (ants.tasks-Ends c.pool p job h)))))
            perm,
        quiet,
      )
