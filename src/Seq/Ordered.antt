-- ===== src/Seq/Ordered.antt =====
-- One goroutine at a time: numbers only grow, over failures and restarts.
use jian_yu_server_lib.Base.{
  ℕ, ◌+◌, ◌*◌, ◌^◌, ◌≤◌, ◌<◌, ◌≡◌, none, some, List, [], ◌∷◌, arith, length,
}
use jian_yu_server_lib.Strings.{Str, str}
use jian_yu_server_lib.Seq.{Store, Pc, done, failed, Replies, gen_seq, first_seq}

-- The number up to which the table has reserved, and the last number that may have been given out.
abbrev pub top : Store → ℕ
top s = elim s.row [ none ↦ first_seq | some m ↦ m ]

abbrev pub last : Store → ℕ
last s = elim s.seq_map [ none ↦ top s | some p ↦ (s.heap p).cur_seq ]

-- The object in the map stays below its limit, and its limit below what the table has reserved.
abbrev pub Within : Store → Type 0
Within s = elim s.seq_map [
  | none ↦ Unit
  | some p ↦ ((s.heap p).cur_seq ≤ (s.heap p).max_seq) × ((s.heap p).max_seq ≤ top s)
]

abbrev pub HasRow : Store → Type 0
HasRow s = elim s.row [ none ↦ s.seq_map ≡ none | some m ↦ Unit ]

pub record IsValid (s : Store) : Type 0 where
  pub within : Within s
  pub has_row : HasRow s

abbrev pub group_member : Str
group_member = str "groupMember"

-- What a call leaves behind: a number just above the last one, or a failure that gives out nothing.
abbrev pub Ended : Store → Store × Pc → Type 0
Ended s (s', pc) = elim pc [
  | done v ↦ (v ≡ last s + 1) × (last s' ≡ v)
  | failed ↦ last s ≤ last s'
  | _ ↦ ⊥
]

module _ (now : ℕ) (rs : Replies) (s : Store) (v : IsValid s) (room : top s + 1000 < 2 ^ 63) where
  -- Every call ends within its steps, whatever the database answers.
  pub gen_seq-Ended : Ended s (gen_seq group_member now rs s)
  unfolding gen_seq
  gen_seq-Ended = ground (arith, v)

  pub gen_seq-IsValid : IsValid (gen_seq group_member now rs s).0
  unfolding gen_seq
  gen_seq-IsValid = record { within = ground (arith, v); has_row = ground (arith, v) }

  pub top-gen_seq : top (gen_seq group_member now rs s).0 ≤ top s + 1000
  unfolding gen_seq
  top-gen_seq = ground (arith, v)

-- What happens to one node: calls, and restarts that lose the process's memory and keep the table.
pub data Event : Type 0 where
  call : ℕ → Replies → Event
  restart : Event

abbrev pub restarted : Store → Store
restarted s = record s { seq_map = none }

abbrev returned_by : Pc → List ℕ → List ℕ
returned_by pc rest = elim pc [ done v ↦ v ∷ rest | _ ↦ rest ]

-- The numbers that the calls return, in their order; a call that panics returns none.
unfoldable pub issued : List Event → Store → List ℕ
issued [] s = []
issued (restart ∷ es) s = issued es (restarted s)
issued (call now rs ∷ es) s =
    let (s', pc) = gen_seq group_member now rs s in returned_by pc (issued es s')

-- The numbers grow strictly, from above `low` on.
abbrev pub Increasing : ℕ → List ℕ → Type 0
Increasing low [] = Unit
Increasing low (v ∷ vs) = (low < v) × Increasing v vs

Increasing-weaken :
    (low high : ℕ) (vs : List ℕ) → low ≤ high → Increasing high vs → Increasing low vs
Increasing-weaken low high [] h inc = tt
Increasing-weaken low high (v ∷ vs) h inc = (omega arith, inc.1)

restarted-IsValid : (s : Store) → IsValid s → IsValid (restarted s)
restarted-IsValid s v = record { within = tt; has_row = ground (arith, v) }

last-le-top : (s : Store) → IsValid s → last s ≤ top s
last-le-top s v = ground (arith, v)

Increasing-returned_by :
    (s s' : Store) (pc : Pc) (rest : List ℕ)
    → Ended s (s', pc)
    → Increasing (last s') rest
    → Increasing (last s) (returned_by pc rest)
Increasing-returned_by s s' (done v) rest e inc =
    (omega arith, Increasing-weaken _ _ rest (omega arith) inc)
Increasing-returned_by s s' failed rest e inc = Increasing-weaken _ _ rest e inc
Increasing-returned_by s s' _ rest e inc = absurd e

-- From a valid store, over any calls of GenSeq for the key "groupMember" of which no two overlap,
-- failures of the database and restarts, the numbers that one node gives out grow strictly, from
-- above the last one given out, as long as the reserved range fits into an int64.
pub issued-Increasing :
    (es : List Event) (s : Store)
    → IsValid s
    → top s + 1000 * length es < 2 ^ 63
    → Increasing (last s) (issued es s)
unfolding issued
issued-Increasing [] s v room = tt
issued-Increasing (restart ∷ es) s v room =
    Increasing-weaken _ _ _ (last-le-top s v)
      (issued-Increasing es (restarted s) (restarted-IsValid s v) (omega arith))
issued-Increasing (call now rs ∷ es) s v room =
    Increasing-returned_by s (gen_seq group_member now rs s).0 _ _
      (gen_seq-Ended now rs s v (omega arith))
      (issued-Increasing es _ (gen_seq-IsValid now rs s v (omega arith))
        (omega (arith, top-gen_seq now rs s v (omega arith))))
