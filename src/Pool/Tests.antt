-- ===== src/Pool/Tests.antt =====
-- A queue on a list as its buffer.
use mathlib.Core.List.{Perm}
use mathlib.Core.List.Perm
use jian_yu_server_lib.Base.{
  ℕ, ◌≡◌, refl, true, false, Option, none, some, List, [], ◌∷◌, ◌++◌, length, drop, ap, ◌<◌, ◌≤◌,
  ◌+◌, arith,
}
use jian_yu_server_lib.Base.Int.{pos}
use package.jian_yu_server_lib.Pool.{Buffer, Queue, push, close, pop, popped}
use package.jian_yu_server_lib.Pool.Fifo.{
  Call, pushed, tried, popped_one, closing, calls, fresh, fifo,
}
use package.jian_yu_server_lib.Pool.Dispatcher.{
  Submitted, blocks, accepts, Ants, Collector, start_dispatcher, will_full, loop_pop, Reaches,
  started, receives, turns, ends, accounted,
}
use package.jian_yu_server_lib.Pool.Accounted.{dispatcher_accounts}
use package.jian_yu_server_lib.Pool.Worker.{
  Event, takes_channel, sends_job, takes_report, Worker, reporting, start, step_in, worker_step,
  worker_run, sent_jobs, worker_run_lem,
}
use package.jian_yu_server_lib.Pool.Closing.{try_pops, after_close}

abbrev first : List ℕ → Option ℕ
first [] = none
first (a ∷ rest) = some a

abbrev on_list : Buffer ℕ
on_list = record {
  B = List ℕ;
  empty = [];
  size = length;
  enqueue = λ b a. b ++ (a ∷ []);
  peek = first;
  remove = drop 1;
  elems = λ b. b;
  elems-empty = refl;
  size_lem = λ b. refl;
  elems-enqueue = λ b a. refl;
  peek_lem = λ b a rest e. ap first e;
  elems-remove = λ b a rest e. ap (drop 1) e;
}

abbrev some_calls : List (Call on_list)
some_calls = pushed 4 ∷ pushed 5 ∷ tried ∷ pushed 6 ∷ popped_one ∷ closing ∷ pushed 7 ∷ []

fifo_example : (calls on_list (fresh on_list) some_calls).accepted ≡ (4 ∷ 5 ∷ []) ++ (6 ∷ [])
fifo_example = fifo on_list some_calls

abbrev two : Queue on_list
two = record { buffer = 4 ∷ 5 ∷ []; closed = false }

after_close_example :
    ((v : ℕ) → push on_list (close on_list two) v ≡ close on_list two)
    × (pop on_list (close on_list two) ≡ popped none (close on_list two))
    × (try_pops on_list 3 (close on_list two) ≡ (some 4, true) ∷ (some 5, true) ∷ (none, true) ∷ [])
after_close_example = after_close on_list two

-- A goroutine pool of size 1: the task that runs, if any.
abbrev Single : Type 0
Single = Option ℕ

abbrev single_tasks : Single → List ℕ
single_tasks none = []
single_tasks (some a) = a ∷ []

abbrev single_submit : Single → ℕ → Submitted Single
single_submit none a = accepts (some a)
single_submit (some b) a = blocks

abbrev single_running : Single → ℕ
single_running p = 1

single_bound : (n : ℕ) → pos 1 ≡ pos n → 0 < n → (p : Single) → 1 ≤ n
single_bound n e positive p = positive

single_accepts :
    (p p' : Single) (a : ℕ)
    → single_submit p a ≡ accepts p'
    → Perm (single_tasks p') (a ∷ single_tasks p)
single_accepts none none a h = absurd cc
single_accepts none (some b) a h = let same : b ≡ a = cc in rw same Perm.rfl
single_accepts (some b) p' a h = absurd cc

single_ends :
    (p p' : Single) (a : ℕ)
    → (p ≡ some a) × (p' ≡ none)
    → Perm (single_tasks p) (a ∷ single_tasks p')
single_ends p p' a (e, e') = rw (e, e', single_tasks) Perm.rfl

-- A pool of one goroutine, which is kept when it has no task
abbrev single : Ants ℕ (pos 1)
single = record {
  P = Single;
  new_pool = none;
  tasks = single_tasks;
  running = single_running;
  submit = single_submit;
  Ends = λ p a p'. (p ≡ some a) × (p' ≡ none);
  tasks-new = refl;
  running_bound = single_bound;
  tasks-accepts = single_accepts;
  tasks-Ends = single_ends;
}

-- Two jobs, of which the first has ended and the second runs
abbrev after_two : Collector single
after_two = record { held = none; pool = some 5; ended = 4 ∷ []; failed = []; warned = false }

after_two-Reaches : Reaches single after_two (5 ∷ 4 ∷ [])
unfolding start_dispatcher loop_pop will_full
after_two-Reaches =
    turns 5
      (receives 5 (ends 4 none (turns 4 (receives 4 started refl) refl refl) (refl, refl)) refl)
      refl refl

dispatcher_accounts_example :
    Perm (accounted single after_two) (5 ∷ 4 ∷ []) × (after_two.warned ≡ false)
dispatcher_accounts_example =
    dispatcher_accounts single refl (omega arith) (omega arith) after_two-Reaches

abbrev some_events : List (Event ℕ)
some_events =
    takes_channel
    ∷ sends_job (some 4)
    ∷ takes_report
    ∷ takes_channel
    ∷ sends_job none
    ∷ takes_channel
    ∷ sends_job (some 5)
    ∷ []

abbrev at_work : Worker ℕ
at_work = record { phase = reporting; ran = 5 ∷ 4 ∷ []; reported = 1 }

worker_run_lem_example :
    (5 ∷ 4 ∷ [] ≡ sent_jobs [] some_events) × (length at_work.ran ≡ at_work.reported + 1)
unfolding worker_run worker_step step_in start
worker_run_lem_example = worker_run_lem at_work some_events refl
