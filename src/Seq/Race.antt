-- ===== src/Seq/Race.antt =====
-- Two goroutines in GenSeq: the lock covers only the accesses to the map.
use jian_yu_server_lib.Base.{
  ℕ, ◌+◌, ◌^◌, ◌<◌, ◌≡◌, Bool, true, false, none, some, List, [], ◌∷◌, arith,
}
use jian_yu_server_lib.Seq.{Store, Pc, looking, done, success, step}

pub record Two : Type 0 where
  pub store : Store
  pub left : Pc
  pub right : Pc

-- One step of one of them, with a database that answers.
pub turn : Bool → Two → Two
unfolding step
turn true t = let (s, pc) = step success t.store t.left in record t { store = s; left = pc }
turn false t = let (s, pc) = step success t.store t.right in record t { store = s; right = pc }

pub interleave : List Bool → Two → Two
unfolding turn
interleave [] t = t
interleave (who ∷ rest) t = interleave rest (turn who t)

abbrev pub both_enter : Store → Two
both_enter s = record { store = s; left = looking; right = looking }

-- Both look into the map before either publishes, then one after the other runs to its end.
abbrev pub late_publish : List Bool
late_publish =
    true ∷ true ∷ false ∷ false ∷ true ∷ true ∷ true ∷ true ∷ true ∷ false ∷ false ∷ false ∷ false
    ∷ false ∷ []

-- On a node that has not used the generator since it started, two concurrent calls can return the
-- same number, whatever the row of the table has reserved, the new range fitting into an int64.
pub first_calls_collide :
    (s : Store) (m : ℕ)
    → s.seq_map ≡ none
    → s.row ≡ some m
    → m + 1001 < 2 ^ 63
    → ((interleave late_publish (both_enter s)).left ≡ done (m + 1))
      × ((interleave late_publish (both_enter s)).right ≡ done (m + 1))
unfolding interleave
first_calls_collide s m not_loaded reserved room = (ground arith, ground arith)
