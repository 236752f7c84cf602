-- ===== src/Pool/Closing.antt =====
-- A closed queue: Pop gives it up at once, TryPop empties it first.
use jian_yu_server_lib.Base.{
  ℕ, zero, suc, ◌↔◌, ◌≡◌, refl, ap, sym, Bool, true, false, Option, none, some, List, [], ◌∷◌, ◌++◌,
  length, arith, Bool-cases, inl, inr, map,
}
use mathlib.Core.Path.{subst}
use package.jian_yu_server_lib.Pool.{Buffer, Queue, push, close, pop, try_pop, len, waits, popped}
use package.jian_yu_server_lib.Pool.Fifo.{front}

module _ {ℓ} {A : Type ℓ} (buf : Buffer A) where
  -- The results of as many calls of TryPop.
  abbrev pub try_pops : ℕ → Queue buf → List (Option A × Bool)
  try_pops zero e = []
  try_pops (suc n) e = let (v, ok, e') = try_pop buf e in (v, ok) ∷ try_pops n e'

  abbrev pub found : A → Option A × Bool
  found a = (some a, true)

  try_pop-empty :
      (b : buf.B) (c : Bool)
      → buf.elems b ≡ []
      → try_pop buf (record { buffer = b; closed = c })
        ≡ (none, c, record { buffer = b; closed = c })
  try_pop-empty b c e = rw (try_pop, buf.size_lem b, e) refl

  try_pop-cons :
      (b : buf.B) (c : Bool) (x : A) (xs : List A)
      → buf.elems b ≡ x ∷ xs
      → try_pop buf (record { buffer = b; closed = c })
        ≡ (some x, true, record { buffer = buf.remove b; closed = c })
  try_pop-cons b c x xs e = elim (front buf b) [
    | inl (nothing, z) ↦ absurd (ground (arith, nothing, e))
    | inr (a, rest, at, z) ↦ rw (try_pop, z, buf.peek_lem b x xs e) refl
  ]

  close_lem : (e : Queue buf) → close buf e ≡ record { buffer = e.buffer; closed = true }
  close_lem e = elim (Bool-cases e.closed) [
    | inl c ↦ rw (close, c) refl
    | inr c ↦ rw (close, c) refl
  ]

  try_pops_lem :
      (xs : List A) (b : buf.B) (c : Bool)
      → buf.elems b ≡ xs
      → try_pops (suc (length xs)) (record { buffer = b; closed = c })
        ≡ map found xs ++ ((none, c) ∷ [])
  try_pops_lem [] b c e = rw (try_pop-empty b c e) refl
  try_pops_lem (x ∷ xs) b c e =
      rw (try_pop-cons b c x xs e)
        (ap (λ l. found x ∷ l) (try_pops_lem xs (buf.remove b) c (buf.elems-remove b x xs e)))

  -- After Close, nothing is put in any more and Pop returns nil at once, whatever is in the queue;
  -- TryPop still returns what is in it, in order and with `true`, and after that nil with `true`.
  pub after_close :
      (e : Queue buf)
      → ((v : A) → push buf (close buf e) v ≡ close buf e)
        × (pop buf (close buf e) ≡ popped none (close buf e))
        × (try_pops (suc (len buf e)) (close buf e)
            ≡ map found (buf.elems e.buffer) ++ ((none, true) ∷ []))
  after_close e = rw (close_lem e) (
    λ v. refl,
    refl,
    subst
        (λ n.
          try_pops (suc n) (record { buffer = e.buffer; closed = true })
          ≡ map found (buf.elems e.buffer) ++ ((none, true) ∷ []))
        (sym (buf.size_lem e.buffer)) (try_pops_lem (buf.elems e.buffer) e.buffer true refl),
  )

  -- Pop waits exactly if the queue is open and empty.
  pub pop_waits_iff :
      (e : Queue buf) → (pop buf e ≡ waits) ↔ ((e.closed ≡ false) × (buf.elems e.buffer ≡ []))
  pop_waits_iff e = elim (Bool-cases e.closed) [
    | inl c ↦ rw (pop, c) (ground arith)
    | inr c ↦ elim (front buf e.buffer) [
      | inl (nothing, z) ↦ rw (pop, c, z) (ground (arith, nothing))
      | inr (a, rest, at, z) ↦ rw (pop, c, z, at) (ground arith)
    ]
  ]
