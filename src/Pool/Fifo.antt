-- ===== src/Pool/Fifo.antt =====
-- What is taken from a queue is what was put in, in the same order.
use jian_yu_server_lib.Base.{
  ◌⊎◌, ◌≡◌, refl, sym, true, false, Option, none, some, List, [], ◌∷◌, ◌++◌, append_assoc, ◌==◌,
  if◌then◌else◌, arith, Bool-cases, inl, inr,
}
use package.jian_yu_server_lib.Pool.{
  Buffer, Queue, new_queue, push, close, pop, try_pop, waits, popped,
}

module _ {ℓ} {A : Type ℓ} (buf : Buffer A) where
  -- The calls, in the order in which they get the mutex; a Pop that waits has no effect.
  pub data Call : Type ℓ where
    pushed : A → Call
    popped_one tried closing : Call

  -- The queue, what it accepted, and what was taken from it.
  pub record History : Type ℓ where
    pub queue : Queue buf
    pub accepted : List A
    pub taken : List A

  abbrev pub fresh : History
  fresh = record { queue = new_queue buf; accepted = []; taken = [] }

  abbrev pub note : List A → Option A → List A
  note taken none = taken
  note taken (some v) = taken ++ (v ∷ [])

  abbrev pub call : History → Call → History
  call h (pushed v) = record {
    queue = push buf h.queue v;
    accepted = if h.queue.closed then h.accepted else h.accepted ++ (v ∷ []);
    taken = h.taken;
  }
  call h popped_one = elim (pop buf h.queue) [
    | waits ↦ h
    | popped v e ↦ record { queue = e; accepted = h.accepted; taken = note h.taken v }
  ]
  call h tried =
      let (v, ok, e) = try_pop buf h.queue in
      record { queue = e; accepted = h.accepted; taken = note h.taken v }
  call h closing = record { queue = close buf h.queue; accepted = h.accepted; taken = h.taken }

  abbrev pub calls : History → List Call → History
  calls h [] = h
  calls h (c ∷ cs) = calls (call h c) cs

  abbrev InOrder : History → Type ℓ
  InOrder h = h.accepted ≡ h.taken ++ buf.elems h.queue.buffer

  front_lem :
      (b : buf.B) (xs : List A)
      → buf.elems b ≡ xs
      → ((buf.elems b ≡ []) × ((buf.size b == 0) ≡ true))
        ⊎ ((a : A) × (rest : List A) × (buf.elems b ≡ a ∷ rest) × ((buf.size b == 0) ≡ false))
  front_lem b [] e = inl (e, rw (buf.size_lem b, e) refl)
  front_lem b (a ∷ rest) e = inr (a, rest, e, rw (buf.size_lem b, e) (ground arith))

  -- The buffer is empty, or it has a front.
  pub front :
      (b : buf.B)
      → ((buf.elems b ≡ []) × ((buf.size b == 0) ≡ true))
        ⊎ ((a : A) × (rest : List A) × (buf.elems b ≡ a ∷ rest) × ((buf.size b == 0) ≡ false))
  front b = front_lem b (buf.elems b) refl

  shifted :
      (accepted taken : List A) (b : buf.B) (a : A) (rest : List A)
      → buf.elems b ≡ a ∷ rest
      → accepted ≡ taken ++ buf.elems b
      → accepted ≡ note taken (buf.peek b) ++ buf.elems (buf.remove b)
  shifted accepted taken b a rest e o =
      rw
        (
          buf.peek_lem b a rest e,
          buf.elems-remove b a rest e,
          append_assoc taken (a ∷ []) rest,
          sym e,
        )
        o

  call-InOrder : (h : History) (c : Call) → InOrder h → InOrder (call h c)
  call-InOrder h (pushed v) o = elim (Bool-cases h.queue.closed) [
    | inl e ↦ rw (push, e) o
    | inr e ↦
        rw (push, e, buf.elems-enqueue h.queue.buffer v, o)
          (append_assoc h.taken (buf.elems h.queue.buffer) (v ∷ []))
  ]
  call-InOrder h popped_one o = elim (Bool-cases h.queue.closed) [
    | inl c ↦ rw (InOrder, call, pop, c) o
    | inr c ↦ elim (front h.queue.buffer) [
      | inl (nothing, z) ↦ rw (InOrder, call, pop, c, z) o
      | inr (a, rest, e, z) ↦
          rw (InOrder, call, pop, c, z) (shifted h.accepted h.taken h.queue.buffer a rest e o)
    ]
  ]
  call-InOrder h tried o = elim (front h.queue.buffer) [
    | inl (nothing, z) ↦ rw (InOrder, call, try_pop, z) o
    | inr (a, rest, e, z) ↦
        rw (InOrder, call, try_pop, z) (shifted h.accepted h.taken h.queue.buffer a rest e o)
  ]
  call-InOrder h closing o = elim (Bool-cases h.queue.closed) [
    | inl e ↦ rw (InOrder, call, close, e) o
    | inr e ↦ rw (InOrder, call, close, e) o
  ]

  calls-InOrder : (cs : List Call) (h : History) → InOrder h → InOrder (calls h cs)
  calls-InOrder [] h o = o
  calls-InOrder (c ∷ cs) h o = calls-InOrder cs (call h c) (call-InOrder h c o)

  -- After any calls on a new queue, from any number of goroutines, what it accepted is what was
  -- taken from it followed by what is still in it: nothing is lost, repeated or reordered.
  pub fifo :
      (cs : List Call)
      → (calls fresh cs).accepted
        ≡ (calls fresh cs).taken ++ buf.elems (calls fresh cs).queue.buffer
  fifo cs = calls-InOrder cs fresh (sym buf.elems-empty)
