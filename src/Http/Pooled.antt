-- ===== src/Http/Pooled.antt =====
-- WKHttpHandler of pkg/wkhttp/http.go: each handler gets a context from a sync.Pool, which has it
-- carry the gin context of the request, and is put back when the handler returns. A context is an
-- address, and what it carries is in a heap; the gin contexts are numbered.
use jian_yu_server_lib.Base.{
  ℕ, suc, ◌+◌, ◌≤◌, ◌≡◌, Option, none, some, List, [], ◌∷◌, ◌++◌, All, ◌==◌, if◌then◌else◌, arith,
}

-- What each context carries, the contexts in the pool, and the handlers that run, each by its
-- context and the gin context it was called with. Contexts from `next` on have not been allocated.
pub record Serving : Type 0 where
  pub next : ℕ
  pub heap : ℕ → Option ℕ
  pub free : List ℕ
  pub running : List (ℕ × ℕ)

abbrev pub update : (ℕ → Option ℕ) → ℕ → Option ℕ → ℕ → Option ℕ
update heap a o b = if b == a then o else heap b

-- allocateContext, which New hands to the pool: a context that carries nothing
unfoldable pub allocate_context : Serving → Serving
allocate_context s = record {
  next = suc s.next;
  heap = update s.heap s.next none;
  free = s.free;
  running = s.running;
}

-- reset
unfoldable pub reset : Serving → ℕ → Serving
reset s a = record {
  next = s.next;
  heap = update s.heap a none;
  free = s.free;
  running = s.running;
}

-- The first part of WKHttpHandler, when the pool has handed out the context `a`
unfoldable pub enter : Serving → ℕ → ℕ → Serving
unfolding reset
enter s a c =
    let hc = reset s a in
    record {
      next = hc.next;
      heap = update hc.heap a (some c);
      free = hc.free;
      running = (a, c) ∷ hc.running;
    }

abbrev with_free : Serving → List ℕ → Serving
with_free s free = record { next = s.next; heap = s.heap; free = free; running = s.running }

-- The deferred call of Put, for the handler of the context `a`; `others` are those that run on.
unfoldable pub leave : Serving → ℕ → List (ℕ × ℕ) → Serving
leave s a others = record { next = s.next; heap = s.heap; free = a ∷ s.free; running = others }

-- No request yet
abbrev pub idle : Serving
idle = record { next = 0; heap = λ a. none; free = []; running = [] }

-- The requests of a server, in any interleaving. The pool hands out a context that was put back,
-- or a new one, and it may forget one that was put back.
pub data Serves : Serving → Type 0 where
  begins : Serves idle
  allocates : {s : Serving} (c : ℕ) → Serves s → Serves (enter (allocate_context s) s.next c)
  reuses :
      {s : Serving} (before after : List ℕ) (a : ℕ) (c : ℕ)
      → Serves s
      → s.free ≡ before ++ (a ∷ after)
      → Serves (enter (with_free s (before ++ after)) a c)
  forgets :
      {s : Serving} (before after : List ℕ) (a : ℕ)
      → Serves s
      → s.free ≡ before ++ (a ∷ after)
      → Serves (with_free s (before ++ after))
  returns :
      {s : Serving} (before after : List (ℕ × ℕ)) (a : ℕ) (c : ℕ)
      → Serves s
      → s.running ≡ before ++ ((a, c) ∷ after)
      → Serves (leave s a (before ++ after))

-- How often an address is in a list
abbrev pub times : ℕ → List ℕ → ℕ
times a [] = 0
times a (b ∷ bs) = (if a == b then 1 else 0) + times a bs

abbrev pub contexts : List (ℕ × ℕ) → List ℕ
contexts [] = []
contexts ((a, c) ∷ rest) = a ∷ contexts rest

times-append : (a : ℕ) (xs bs : List ℕ) → times a (xs ++ bs) ≡ times a xs + times a bs
times-append a [] bs = omega arith
times-append a (b ∷ xs) bs = ground (arith, times-append a xs bs)

contexts-append :
    (a : ℕ) (r t : List (ℕ × ℕ))
    → times a (contexts (r ++ t)) ≡ times a (contexts r) + times a (contexts t)
contexts-append a [] t = omega arith
contexts-append a ((b, c) ∷ r) t = ground (arith, contexts-append a r t)

-- A handler's context carries the gin context that it was called with.
abbrev pub Carries : (ℕ → Option ℕ) → ℕ × ℕ → Type 0
Carries heap (a, c) = heap a ≡ some c

Carries-update :
    (heap : ℕ → Option ℕ) (a : ℕ) (o : Option ℕ) (r : List (ℕ × ℕ))
    → times a (contexts r) ≡ 0
    → All (Carries heap) r
    → All (Carries (update heap a o)) r
Carries-update heap a o [] h k = tt
Carries-update heap a o ((b, c) ∷ r) h k =
    (ground arith, Carries-update heap a o r (ground arith) k.1)

Carries-split :
    (heap : ℕ → Option ℕ) (before after : List (ℕ × ℕ)) (p : ℕ × ℕ)
    → All (Carries heap) (before ++ (p ∷ after))
    → All (Carries heap) (before ++ after)
Carries-split heap [] after p h = h.1
Carries-split heap (q ∷ before) after p h = (h.0, Carries-split heap before after p h.1)

enter-Carries :
    (s : Serving) (a c : ℕ)
    → times a (contexts s.running) ≡ 0
    → All (Carries s.heap) s.running
    → All (Carries (enter s a c).heap) (enter s a c).running
unfolding enter reset
enter-Carries s a c unused h = (
  ground arith,
  Carries-update (update s.heap a none) a (some c) s.running unused
      (Carries-update s.heap a none s.running unused h),
)

-- A context is in a split list as often as in its parts.
times-middle :
    (b : ℕ) (l before after : List ℕ) (a : ℕ)
    → l ≡ before ++ (a ∷ after)
    → times b l ≡ times b (before ++ after) + (if b == a then 1 else 0)
times-middle b l before after a e =
    rw (e, times-append b before (a ∷ after), times-append b before after) (omega arith)

contexts-middle :
    (b : ℕ) (l before after : List (ℕ × ℕ)) (a c : ℕ)
    → l ≡ before ++ ((a, c) ∷ after)
    → times b (contexts l) ≡ times b (contexts (before ++ after)) + (if b == a then 1 else 0)
contexts-middle b l before after a c e =
    rw (e, contexts-append b before ((a, c) ∷ after), contexts-append b before after) (omega arith)

-- The contexts of the running handlers differ from each other and from those in the pool, all of
-- them have been allocated, and each carries its handler's gin context.
record WellFormed (s : Serving) : Type 0 where
  once : (a : ℕ) → times a (contexts s.running) + times a s.free ≤ 1
  fresh : (a : ℕ) → s.next ≤ a → times a (contexts s.running) + times a s.free ≡ 0
  carries : All (Carries s.heap) s.running

Serves-WellFormed : {s : Serving} → Serves s → WellFormed s
unfolding allocate_context enter reset leave
Serves-WellFormed begins = record {
  once = λ a. omega arith;
  fresh = λ a h. omega arith;
  carries = tt;
}
Serves-WellFormed (allocates {s} c r) =
    let w = Serves-WellFormed r in
    record {
      once = λ a. ground (arith, w.once a, w.fresh s.next (omega arith));
      fresh = λ a h. ground (arith, w.fresh a (omega arith));
      carries =
          enter-Carries (allocate_context s) s.next c (omega (arith, w.fresh s.next (omega arith)))
            (Carries-update s.heap s.next none s.running
              (omega (arith, w.fresh s.next (omega arith))) w.carries);
    }
Serves-WellFormed (reuses {s} before after a c r e) =
    let w = Serves-WellFormed r in
    let split = λ (b : ℕ). times-middle b s.free before after a e in
    record {
      once = λ b. ground (arith, w.once b, split b);
      fresh = λ b h. ground (arith, w.fresh b h, split b);
      carries =
          enter-Carries (with_free s (before ++ after)) a c (ground (arith, w.once a, split a))
            w.carries;
    }
Serves-WellFormed (forgets {s} before after a r e) =
    let w = Serves-WellFormed r in
    let split = λ (b : ℕ). times-middle b s.free before after a e in
    record {
      once = λ b. ground (arith, w.once b, split b);
      fresh = λ b h. ground (arith, w.fresh b h, split b);
      carries = w.carries;
    }
Serves-WellFormed (returns {s} before after a c r e) =
    let w = Serves-WellFormed r in
    let split = λ (b : ℕ). contexts-middle b s.running before after a c e in
    record {
      once = λ b. ground (arith, w.once b, split b);
      fresh = λ b h. ground (arith, w.fresh b h, split b);
      carries = Carries-split s.heap before after (a, c) (rw e at w.carries);
    }

-- Whatever requests come and go, the context of each running handler carries the gin context of
-- its own request, and no two running handlers have the same context, nor is one that runs in the
-- pool.
pub handlers_apart :
    (s : Serving)
    → Serves s
    → All (Carries s.heap) s.running × ((a : ℕ) → times a (contexts s.running) + times a s.free ≤ 1)
handlers_apart s r = let w = Serves-WellFormed r in (w.carries, w.once)
