-- ===== src/Pool/Worker.antt =====
-- pkg/pool/worker.go: the goroutine of a worker, as a machine that the other goroutines move on by
-- what they do at its channels, which nothing closes.
use mathlib.Core.Option.{some-injective}
use mathlib.Core.Path.{subst}
use jian_yu_server_lib.Base.{
  ℕ, suc, ◌+◌, ◌≡◌, refl, Option, none, some, List, [], ◌∷◌, length, arith, ap, sym, ◌∙◌,
  Option-cases, inl, inr,
}

-- Where the goroutine is in its loop: it offers its channel, waits in the select, reports that a
-- job is finished, or has returned.
pub data Phase : Type 0 where
  offering selecting reporting ended : Phase

-- What another goroutine does: it takes the channel from WorkerChannel, sends a job (`none` is
-- nil), takes a report from jobFinished, or sends to End.
pub data Event {ℓ} (A : Type ℓ) : Type ℓ where
  takes_channel : Event A
  sends_job : Option A → Event A
  takes_report : Event A
  sends_end : Event A

-- A worker, with the jobs that it has run, the last first, and how many it has reported.
pub record Worker {ℓ} (A : Type ℓ) : Type ℓ where
  pub phase : Phase
  pub ran : List A
  pub reported : ℕ

-- Whether a job has been run and not yet been reported
abbrev pub pending : Phase → ℕ
pending reporting = 1
pending phase = 0

module _ {ℓ} {A : Type ℓ} where
  -- The worker when Start has been called
  unfoldable pub start : Worker A
  start = record { phase = offering; ran = []; reported = 0 }

  abbrev moved : Phase → Worker A → Worker A
  moved phase w = record { phase = phase; ran = w.ran; reported = w.reported }

  -- What an event does to a worker in this phase. `none` is an event that waits for the worker: the
  -- channels have no buffer.
  unfoldable pub step_in : Phase → Worker A → Event A → Option (Worker A)
  step_in offering w takes_channel = some (moved selecting w)
  step_in selecting w (sends_job (some job)) =
      some (record { phase = reporting; ran = job ∷ w.ran; reported = w.reported })
  step_in selecting w (sends_job none) = some (moved offering w)
  step_in selecting w sends_end = some (moved ended w)
  step_in reporting w takes_report =
      some (record { phase = offering; ran = w.ran; reported = suc w.reported })
  step_in phase w event = none

  -- One step of the loop in Start, and Stop as the event `sends_end`
  unfoldable pub worker_step : Worker A → Event A → Option (Worker A)
  unfolding step_in
  worker_step w event = step_in w.phase w event

  -- A run of the worker by these events, in their order
  unfoldable pub worker_run : Worker A → List (Event A) → Option (Worker A)
  unfolding worker_step
  worker_run w [] = some w
  worker_run w (event ∷ events) = elim (worker_step w event) [
    | none ↦ none
    | some w' ↦ worker_run w' events
  ]

  -- The jobs that are sent, the last first, in front of `before`
  unfoldable pub sent_jobs : List A → List (Event A) → List A
  sent_jobs before [] = before
  sent_jobs before (sends_job (some job) ∷ events) = sent_jobs (job ∷ before) events
  sent_jobs before (event ∷ events) = sent_jobs before events

  -- What every step keeps: the reports are one for each job run, less the one that is due.
  step_in_lem :
      (phase : Phase) (w w' : Worker A) (event : Event A)
      → step_in phase w event ≡ some w'
      → length w.ran ≡ w.reported + pending phase
      → (w'.ran ≡ sent_jobs w.ran (event ∷ [])) × (length w'.ran ≡ w'.reported + pending w'.phase)
  unfolding step_in sent_jobs
  step_in_lem phase w w' event h k = ground arith

  sent_jobs-cons :
      (before : List A) (event : Event A) (events : List (Event A))
      → sent_jobs (sent_jobs before (event ∷ [])) events ≡ sent_jobs before (event ∷ events)
  unfolding sent_jobs
  sent_jobs-cons before takes_channel events = refl
  sent_jobs-cons before (sends_job none) events = refl
  sent_jobs-cons before (sends_job (some job)) events = refl
  sent_jobs-cons before takes_report events = refl
  sent_jobs-cons before sends_end events = refl

  worker_run-from :
      (w w' : Worker A) (events : List (Event A))
      → worker_run w events ≡ some w'
      → length w.ran ≡ w.reported + pending w.phase
      → (w'.ran ≡ sent_jobs w.ran events) × (length w'.ran ≡ w'.reported + pending w'.phase)
  unfolding worker_run worker_step sent_jobs
  worker_run-from w w' [] h k = (
    ap (λ v. v.ran) (sym (some-injective _ _ h)),
    subst (λ v. length v.ran ≡ v.reported + pending v.phase) (some-injective _ _ h) k,
  )
  worker_run-from w w' (event ∷ events) h k = elim (Option-cases (step_in w.phase w event)) [
    | inl waits ↦ absurd (cc (rw (waits, worker_run) at h))
    | inr (v, e) ↦
        let (ran, count) = step_in_lem w.phase w v event e k in
        let (more, total) = worker_run-from v w' events (rw (e, worker_run) at h) count in
        (more ∙ (ap (λ r. sent_jobs r events) ran ∙ sent_jobs-cons w.ran event events), total)
  ]

  -- A worker that has been started and has come as far as these events runs the jobs sent to it
  -- that are not nil, each once and in the order in which they were sent, and reports each of them,
  -- where the last report may be still due.
  pub worker_run_lem :
      (w : Worker A) (events : List (Event A))
      → worker_run start events ≡ some w
      → (w.ran ≡ sent_jobs [] events) × (length w.ran ≡ w.reported + pending w.phase)
  unfolding start
  worker_run_lem w events h = worker_run-from start w events h refl

  -- Once a worker has ended no event is accepted any more.
  pub ended_waits : (w : Worker A) (event : Event A) → w.phase ≡ ended → worker_step w event ≡ none
  unfolding worker_step
  ended_waits w event h = rw h (unfold step_in in refl)
