-- ===== src/Pool/Dispatcher.antt =====
-- pkg/pool/dispatcher.go: the loop that takes jobs from a channel and hands them to a goroutine
-- pool. The pool of github.com/panjf2000/ants is a parameter.
use mathlib.Core.List.{Perm}
use jian_yu_server_lib.Base.{
  ℕ, ◌+◌, ◌^◌, ◌<◌, ◌≤◌, ◌≡◌, Bool, true, false, ◌||◌, Option, none, some, List, [], ◌∷◌, ◌++◌, ltb,
  leb, if◌then◌else◌,
}
use jian_yu_server_lib.Base.Int.{ℤ, pos, negsuc}

-- What Submit does with a task: it waits for a free goroutine, refuses the task by an error, or
-- has it run.
pub data Submitted {ℓ} (P : Type ℓ) : Type ℓ where
  blocks refuses : Submitted P
  accepts : P → Submitted P

-- What the package promises of a pool that is made with this size: a pool whose size is above 0
-- never has more goroutines than that (one of another size has no bound), an accepted task is one of
-- its tasks, and a task that ends is none of them any more. `running` is what Running counts, which
-- may be more than the tasks: it may count goroutines that wait for one.
pub record Ants {ℓ} (A : Type ℓ) (size : ℤ) : Type (ℓ + 1) where
  pub P : Type ℓ
  pub new_pool : P
  pub tasks : P → List A
  pub running : P → ℕ
  pub submit : P → A → Submitted P
  pub Ends : P → A → P → Type ℓ
  pub tasks-new : tasks new_pool ≡ []
  pub running_bound : (n : ℕ) → size ≡ pos n → 0 < n → (p : P) → running p ≤ n
  pub tasks-accepts : (p p' : P) (a : A) → submit p a ≡ accepts p' → Perm (tasks p') (a ∷ tasks p)
  pub tasks-Ends : (p p' : P) (a : A) → Ends p a p' → Perm (tasks p) (a ∷ tasks p')

module _ {ℓ} {A : Type ℓ} {worker_count : ℤ} (ants : Ants A worker_count) where
  -- A dispatcher: the job that the loop holds, the pool, and, to state what happens to jobs, those
  -- that have ended and those whose submission failed, and whether the loop has warned.
  pub record Collector : Type ℓ where
    pub held : Option A
    pub pool : ants.P
    pub ended : List A
    pub failed : List A
    pub warned : Bool

  -- StartDispatcher
  unfoldable pub start_dispatcher : Collector
  start_dispatcher = record {
    held = none;
    pool = ants.new_pool;
    ended = [];
    failed = [];
    warned = false;
  }

  -- The test before the warning of a pool that is nearly full: workerCount+1 wraps at the end of the
  -- int64, and what is not above 0 is never more than Running.
  unfoldable pub will_full : ants.P → Bool
  will_full p = elim worker_count [
    | pos n ↦ if ltb (n + 1) (2 ^ 63) then leb (n + 1) (ants.running p) else true
    | negsuc n ↦ true
  ]

  -- The body of loopPop, from the job to the next one; `none` while Submit waits. An error of
  -- Submit is printed.
  unfoldable pub loop_pop : Collector → A → Option Collector
  unfolding will_full
  loop_pop c job = elim (ants.submit c.pool job) [
    | blocks ↦ none
    | refuses ↦ some (record {
      held = none;
      pool = c.pool;
      ended = c.ended;
      failed = job ∷ c.failed;
      warned = c.warned || will_full c.pool;
    })
    | accepts p ↦ some (record {
      held = none;
      pool = p;
      ended = c.ended;
      failed = c.failed;
      warned = c.warned || will_full c.pool;
    })
  ]

  -- What happens in a dispatcher: the loop receives a job, goes round with the one that it holds,
  -- or a job ends. The list is the jobs received, the last first.
  pub data Reaches : Collector → List A → Type ℓ where
    started : Reaches start_dispatcher []
    receives :
        {c : Collector} {jobs : List A} (job : A)
        → Reaches c jobs
        → c.held ≡ none
        → Reaches
            (record {
              held = some job;
              pool = c.pool;
              ended = c.ended;
              failed = c.failed;
              warned = c.warned;
            })
            (job ∷ jobs)
    turns :
        {c c' : Collector} {jobs : List A} (job : A)
        → Reaches c jobs
        → c.held ≡ some job
        → loop_pop c job ≡ some c'
        → Reaches c' jobs
    ends :
        {c : Collector} {jobs : List A} (job : A) (p : ants.P)
        → Reaches c jobs
        → ants.Ends c.pool job p
        → Reaches
            (record {
              held = c.held;
              pool = p;
              ended = job ∷ c.ended;
              failed = c.failed;
              warned = c.warned;
            })
            jobs

  abbrev pub held_jobs : Option A → List A
  held_jobs none = []
  held_jobs (some job) = job ∷ []

  -- Where every job received is
  abbrev pub accounted : Collector → List A
  accounted c = held_jobs c.held ++ (ants.tasks c.pool ++ (c.ended ++ c.failed))
