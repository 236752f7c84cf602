-- ===== src/KeyLock/Invariant.antt =====
-- The counts, the mutexes and the map of a KeyLock agree with where the threads stand.
use jian_yu_server_lib.Base.{
  ℕ, zero, suc, ◌+◌, ◌≤◌, ◌<◌, ◌≡◌, refl, sym, Bool, true, false, some, List, [], ◌∷◌, arith,
  get_elem?, replicate, ◌==◌, if◌then◌else◌, inl, inr, ◌⊎◌,
}
use jian_yu_server_lib.Strings.{Str}
use package.jian_yu_server_lib.KeyLock.{KeyLock, new_inner_lock, new_key_lock}
use package.jian_yu_server_lib.KeyLock.Threads.{
  Pc, idle, missed, waiting, critical, releasing, World, set,
}
use package.jian_yu_server_lib.KeyLock.Tally.{tally, tally-set, tally-replicate}

-- 1 for a thread that the count of the inner lock `o` counts.
abbrev pub user : ℕ → Pc → ℕ
user o (waiting k o') = if o == o' then 1 else 0
user o (critical k o') = if o == o' then 1 else 0
user o pc = 0

-- 1 for a thread that has the mutex of `o`.
abbrev pub holder : ℕ → Pc → ℕ
holder o (critical k o') = if o == o' then 1 else 0
holder o (releasing o') = if o == o' then 1 else 0
holder o pc = 0

pub user_le : (o : ℕ) (pc : Pc) → user o pc ≤ 1
user_le o idle = omega arith
user_le o (missed k) = omega arith
user_le o (waiting k o') = ground arith
user_le o (critical k o') = ground arith
user_le o (releasing o') = omega arith

abbrev pub to_nat : Bool → ℕ
to_nat true = 1
to_nat false = 0

-- The map has the lock that a thread counts on.
abbrev pub Mapped : KeyLock → Pc → Type 0
Mapped l (waiting k o) = l.locks k ≡ some o
Mapped l (critical k o) = l.locks k ≡ some o
Mapped l pc = Unit

pub record IsValid (w : World) : Type 0 where
  pub counted : (o : ℕ) → (w.lock.objs o).count ≡ tally (user o) w.threads
  pub held : (o : ℕ) → to_nat (w.lock.objs o).locked ≡ tally (holder o) w.threads
  pub mapped : (i : ℕ) (pc : Pc) → get_elem? w.threads i ≡ some pc → Mapped w.lock pc
  pub made : (k : Str) (o : ℕ) → w.lock.locks k ≡ some o → o < w.lock.next
  pub unmade : (o : ℕ) → w.lock.next ≤ o → w.lock.objs o ≡ new_inner_lock

all_idle : (n i : ℕ) (pc : Pc) → get_elem? (replicate n idle) i ≡ some pc → pc ≡ idle
all_idle zero i pc h = ground arith
all_idle (suc n) zero pc h = ground arith
all_idle (suc n) (suc i) pc h = all_idle n i pc h

pub start-IsValid : (n : ℕ) → IsValid (record { lock = new_key_lock; threads = replicate n idle })
start-IsValid n = record {
  counted = λ o. sym (tally-replicate (user o) n idle refl);
  held = λ o. sym (tally-replicate (holder o) n idle refl);
  mapped = λ i pc h. rw (all_idle n i pc h) tt;
  made = λ k o h. ground arith;
  unmade = λ o h. refl;
}

get_elem?-set :
    {A : Type 0} (xs : List A) (i j : ℕ) (a b : A)
    → get_elem? (set xs i a) j ≡ some b
    → (b ≡ a) ⊎ (get_elem? xs j ≡ some b)
get_elem?-set [] i j a b h = inr h
get_elem?-set (x ∷ xs) zero zero a b h = ground arith
get_elem?-set (x ∷ xs) zero (suc j) a b h = inr h
get_elem?-set (x ∷ xs) (suc i) zero a b h = inr h
get_elem?-set (x ∷ xs) (suc i) (suc j) a b h = get_elem?-set xs i j a b h

-- The map keeps its entries.
abbrev pub Keeps : KeyLock → KeyLock → Type 0
Keeps l l' = (k : Str) (o : ℕ) → l.locks k ≡ some o → l'.locks k ≡ some o

Mapped-Keeps : (l l' : KeyLock) (pc : Pc) → Keeps l l' → Mapped l pc → Mapped l' pc
Mapped-Keeps l l' idle k m = tt
Mapped-Keeps l l' (missed key) k m = tt
Mapped-Keeps l l' (waiting key o) k m = k key o m
Mapped-Keeps l l' (critical key o) k m = k key o m
Mapped-Keeps l l' (releasing o) k m = tt

-- A section whose changes of the counts and mutexes are those of its thread keeps the invariant.
pub moved :
    (w : World) (i : ℕ) (pc pc' : Pc) (l : KeyLock)
    → IsValid w
    → get_elem? w.threads i ≡ some pc
    → ((o : ℕ) → (l.objs o).count + user o pc ≡ (w.lock.objs o).count + user o pc')
    → ((o : ℕ)
        → to_nat (l.objs o).locked + holder o pc ≡ to_nat (w.lock.objs o).locked + holder o pc')
    → Keeps w.lock l
    → Mapped l pc'
    → ((k : Str) (o : ℕ) → l.locks k ≡ some o → o < l.next)
    → ((o : ℕ) → l.next ≤ o → l.objs o ≡ new_inner_lock)
    → IsValid (record { lock = l; threads = set w.threads i pc' })
moved w i pc pc' l v at counts locks keeps mine made unmade = record {
  counted = λ o. omega (arith, counts o, v.counted o, tally-set (user o) w.threads i pc pc' at);
  held = λ o. omega (arith, locks o, v.held o, tally-set (holder o) w.threads i pc pc' at);
  mapped = λ j q h. elim (get_elem?-set w.threads i j pc' q h) [
    | inl e ↦ rw e mine
    | inr e ↦ Mapped-Keeps w.lock l q keeps (v.mapped j q e)
  ];
  made = made;
  unmade = unmade;
}
