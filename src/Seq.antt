-- ===== src/Seq.antt =====
-- config/seq.go: the generator of sequence numbers, as the steps of a goroutine in GenSeq.
-- The store is what goroutines share: the `Seq` objects, the map `seqMap` and the table `seq`.
pub mod Ordered
pub mod Race
mod Tests
use jian_yu_server_lib.Base.{
  ℕ, zero, suc, ◌+◌, ◌≡◌, refl, Bool, true, false, Option, none, some, List, [], ◌∷◌, ◌==◌,
  if◌then◌else◌,
}
use jian_yu_server_lib.Base.Int64.{add64, ge64}
use jian_yu_server_lib.Strings.{Str, str, str_eq}

abbrev pub seq_step : ℕ
seq_step = 1000

abbrev pub first_seq : ℕ
first_seq = 1000000

pub record Seq : Type 0 where
  pub cur_seq : ℕ
  pub max_seq : ℕ

-- `seq_map` holds the address of the object of the one flag that gets this far, "groupMember", and
-- `row` the column min_seq of its row in the table.
pub record Store : Type 0 where
  pub heap : ℕ → Seq
  pub next : ℕ
  pub seq_map : Option ℕ
  pub row : Option ℕ

abbrev pub write : (ℕ → Seq) → ℕ → Seq → ℕ → Seq
write heap p v q = if p == q then v else heap q

-- What a database call does: it succeeds, it fails with no effect, or it takes effect and the
-- caller still gets an error.
pub data Reply : Type 0 where
  success refused lost : Reply

-- Where a goroutine stands in GenSeq.
pub data Pc : Type 0 where
  looking querying inserting : Pc
  publishing : Seq → Pc
  checking extending raising adding : ℕ → Pc
  done : ℕ → Pc
  failed : Pc

-- addOrUpdateSeq, then the step to `after`, or the panic
add_or_update_seq : Reply → ℕ → Store → Pc → Store × Pc
add_or_update_seq success min_seq s after = (record s { row = some min_seq }, after)
add_or_update_seq refused min_seq s after = (s, failed)
add_or_update_seq lost min_seq s after = (record s { row = some min_seq }, failed)

-- querySeqWithKey, and the branch on its result
query_seq_with_key : Reply → Store → Pc
query_seq_with_key success s = elim s.row [
  | none ↦ inserting
  | some min_seq ↦ publishing (record { cur_seq = min_seq; max_seq = min_seq })
]
query_seq_with_key refused s = failed
query_seq_with_key lost s = failed

-- One step of GenSeq.
unfoldable pub step : Reply → Store → Pc → Store × Pc
unfolding add_or_update_seq query_seq_with_key
step r s looking = (s, elim s.seq_map [ none ↦ querying | some p ↦ checking p ])
step r s querying = (s, query_seq_with_key r s)
step r s inserting =
    add_or_update_seq r (add64 first_seq seq_step) s
      (publishing (record { cur_seq = first_seq; max_seq = add64 first_seq seq_step }))
step r s (publishing seq) = (
  record s { heap = write s.heap s.next seq; next = s.next + 1; seq_map = some s.next },
  checking s.next,
)
step r s (checking p) =
    (s, if ge64 (s.heap p).cur_seq (s.heap p).max_seq then extending p else adding p)
step r s (extending p) = add_or_update_seq r (add64 (s.heap p).cur_seq seq_step) s (raising p)
step r s (raising p) = (
  record s {
    heap =
        write s.heap p
          (record { cur_seq = (s.heap p).cur_seq; max_seq = add64 (s.heap p).max_seq seq_step });
  },
  adding p,
)
step r s (adding p) =
    let cur = add64 (s.heap p).cur_seq 1 in
    (
      record s { heap = write s.heap p (record { cur_seq = cur; max_seq = (s.heap p).max_seq }) },
      done cur,
    )
step r s (done v) = (s, done v)
step r s failed = (s, failed)

-- The replies of the three database calls that one call of GenSeq may make.
pub record Replies : Type 0 where
  pub query : Reply
  pub insert : Reply
  pub extend : Reply

abbrev pub reply_at : Replies → Pc → Reply
reply_at rs querying = rs.query
reply_at rs inserting = rs.insert
reply_at rs (extending p) = rs.extend
reply_at rs pc = success

pub run : ℕ → Replies → Store → Pc → Store × Pc
run zero rs s pc = (s, pc)
run (suc n) rs s pc = let (s', pc') = step (reply_at rs pc) s pc in run n rs s' pc'

-- A call of GenSeq with no other goroutine in it takes at most eight steps. Another flag gets the
-- time in nanoseconds.
pub gen_seq : Str → ℕ → Replies → Store → Store × Pc
unfolding run step str_eq str
gen_seq flag now rs s =
    if str_eq flag (str "groupMember") then run 8 rs s looking else (s, done now)
