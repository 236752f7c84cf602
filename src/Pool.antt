-- ===== src/Pool.antt =====
-- pkg/pool/queue.go: a queue between goroutines. Each function runs under the queue's mutex, so a
-- run is a sequence of them; the ring buffer of github.com/eapache/queue is a parameter.
pub mod Fifo
pub mod Closing
pub mod Dispatcher
pub mod Accounted
pub mod Worker
mod Tests
use jian_yu_server_lib.Base.{
  ℕ, suc, ◌≡◌, Bool, true, false, Option, none, some, List, [], ◌∷◌, ◌++◌, length, ◌==◌, ◌||◌,
  if◌then◌else◌,
}

-- What the package promises of its buffer: it is a list that grows at its end and is read and
-- shrinks at its front. Peek and Remove panic on an empty buffer, so nothing is said of them there.
pub record Buffer {ℓ} (A : Type ℓ) : Type (ℓ + 1) where
  pub B : Type ℓ
  pub empty : B
  pub size : B → ℕ
  pub enqueue : B → A → B
  pub peek : B → Option A
  pub remove : B → B
  pub elems : B → List A
  pub elems-empty : elems empty ≡ []
  pub size_lem : (b : B) → size b ≡ length (elems b)
  pub elems-enqueue : (b : B) (a : A) → elems (enqueue b a) ≡ elems b ++ (a ∷ [])
  pub peek_lem : (b : B) (a : A) (rest : List A) → elems b ≡ a ∷ rest → peek b ≡ some a
  pub elems-remove : (b : B) (a : A) (rest : List A) → elems b ≡ a ∷ rest → elems (remove b) ≡ rest

module _ {ℓ} {A : Type ℓ} (buf : Buffer A) where
  pub record Queue : Type ℓ where
    pub buffer : buf.B
    pub closed : Bool

  -- NewQueue
  abbrev pub new_queue : Queue
  new_queue = record { buffer = buf.empty; closed = false }

  -- Push
  abbrev pub push : Queue → A → Queue
  push e v = if e.closed then e else record { buffer = buf.enqueue e.buffer v; closed = e.closed }

  -- Close
  abbrev pub close : Queue → Queue
  close e = if e.closed then e else record { buffer = e.buffer; closed = true }

  -- What Pop does with the queue as it is: it waits, or it returns a value, `none` for nil.
  pub data Popped : Type ℓ where
    waits : Popped
    popped : Option A → Queue → Popped

  -- Pop
  abbrev pub pop : Queue → Popped
  pop e =
      if e.closed
      then popped none e
      else if buf.size e.buffer == 0
      then waits
      else popped (buf.peek e.buffer) (record { buffer = buf.remove e.buffer; closed = e.closed })

  -- TryPop: the value, whether it is one (or the queue is closed), and the queue afterwards.
  abbrev pub try_pop : Queue → Option A × Bool × Queue
  try_pop e =
      if buf.size e.buffer == 0
      then (none, e.closed, e)
      else (buf.peek e.buffer, true, record { buffer = buf.remove e.buffer; closed = e.closed })

  -- Len
  abbrev pub len : Queue → ℕ
  len e = buf.size e.buffer

  -- Wait: whether its loop ends when it looks at the queue, which it does without the lock
  abbrev pub wait_ends : Queue → Bool
  wait_ends e = e.closed || buf.size e.buffer == 0
