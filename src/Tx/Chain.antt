-- ===== src/Tx/Chain.antt =====
-- pkg/zdb/db.go: the query builder. Each method of a DB puts the *gorm.DB that gorm makes of the
-- old one in its place and returns the same DB, so all that use a DB build one query. gorm is a
-- parameter: one function for each of its methods.
use jian_yu_server_lib.Base.{
  ℕ, ◌≡◌, ◌≢◌, refl, ap, ◌∙◌, List, [], ◌∷◌, ◌==◌, Bool-cases, inl, inr, ==_iff, ==_refl,
}
use jian_yu_server_lib.Base.Int.{ℤ}
use jian_yu_server_lib.Strings.{Str}
use jian_yu_server_lib.Tx.{State, put}

-- The methods with their arguments; `V` is any Go value.
pub data Call {ℓ} (V : Type ℓ) : Type ℓ where
  on_model : V → Call V
  on_table : Str → List V → Call V
  select where_cond not_cond or_cond having : V → List V → Call V
  distinct : List V → Call V
  omit : List Str → Call V
  joins raw exec : Str → List V → Call V
  group_by : Str → Call V
  order_by create save updates update_columns : V → Call V
  limit offset : ℤ → Call V
  first take_one last find first_or_create delete : V → List V → Call V
  update update_column : Str → V → Call V
  count : V → Call V
  pluck : Str → V → Call V

-- The methods of a *gorm.DB that the builder calls, under gorm's names: each gives the new query, and
-- may run it on the databases.
pub record Queries {ℓ} (S O V : Type ℓ) : Type ℓ where
  pub model : V → S → O → S × O
  pub order : V → S → O → S × O
  pub create : V → S → O → S × O
  pub save : V → S → O → S × O
  pub updates : V → S → O → S × O
  pub update_columns : V → S → O → S × O
  pub count : V → S → O → S × O
  pub table : Str → List V → S → O → S × O
  pub joins : Str → List V → S → O → S × O
  pub raw : Str → List V → S → O → S × O
  pub exec : Str → List V → S → O → S × O
  pub select : V → List V → S → O → S × O
  pub where_query : V → List V → S → O → S × O
  pub not_query : V → List V → S → O → S × O
  pub or_query : V → List V → S → O → S × O
  pub having : V → List V → S → O → S × O
  pub first : V → List V → S → O → S × O
  pub take : V → List V → S → O → S × O
  pub last : V → List V → S → O → S × O
  pub find : V → List V → S → O → S × O
  pub first_or_create : V → List V → S → O → S × O
  pub delete : V → List V → S → O → S × O
  pub distinct : List V → S → O → S × O
  pub omit : List Str → S → O → S × O
  pub group : Str → S → O → S × O
  pub limit : ℤ → S → O → S × O
  pub offset : ℤ → S → O → S × O
  pub update : Str → V → S → O → S × O
  pub update_column : Str → V → S → O → S × O
  pub pluck : Str → V → S → O → S × O

put_at {ℓ} : {A : Type ℓ} (f : ℕ → A) (i : ℕ) (a : A) → put f i a i ≡ a
put_at f i a = rw (==_refl i) refl

put_elsewhere {ℓ} : {A : Type ℓ} (f : ℕ → A) (i j : ℕ) (a : A) → j ≢ i → put f i a j ≡ f j
put_elsewhere f i j a ne = elim (Bool-cases (j == i)) [
  | inl e ↦ absurd (ne ((==_iff j i).0 e))
  | inr e ↦ rw e refl
]

module _ {ℓ} {S O V : Type ℓ} (gorm : Queries S O V) where
  -- The method of gorm that each method calls, on `db.orm`.
  unfoldable pub called : Call V → S → O → S × O
  called (on_model value) = gorm.model value
  called (on_table text args) = gorm.table text args
  called (select value args) = gorm.select value args
  called (distinct args) = gorm.distinct args
  called (omit columns) = gorm.omit columns
  called (where_cond value args) = gorm.where_query value args
  called (not_cond value args) = gorm.not_query value args
  called (or_cond value args) = gorm.or_query value args
  called (joins text args) = gorm.joins text args
  called (group_by name) = gorm.group name
  called (having value args) = gorm.having value args
  called (order_by value) = gorm.order value
  called (limit n) = gorm.limit n
  called (offset n) = gorm.offset n
  called (raw text args) = gorm.raw text args
  called (create value) = gorm.create value
  called (save value) = gorm.save value
  called (first value args) = gorm.first value args
  called (take_one value args) = gorm.take value args
  called (last value args) = gorm.last value args
  called (find value args) = gorm.find value args
  called (first_or_create value args) = gorm.first_or_create value args
  called (update column value) = gorm.update column value
  called (updates value) = gorm.updates value
  called (update_column column value) = gorm.update_column column value
  called (update_columns value) = gorm.update_columns value
  called (delete value args) = gorm.delete value args
  called (count value) = gorm.count value
  called (pluck column value) = gorm.pluck column value
  called (exec text args) = gorm.exec text args

  -- The methods from Model to Exec: `db.orm = db.orm.…; return db`, where the query may be run on
  -- the databases.
  unfoldable pub chain : Call V → State S O → ℕ → State S O × ℕ
  unfolding called
  chain c s db =
      let made = called c s.world (s.orms db) in
      (record { world = made.0; orms = put s.orms db made.1; next = s.next; m = s.m }, db)

  -- A chain of calls
  unfoldable pub chains : List (Call V) → State S O → ℕ → State S O × ℕ
  unfolding chain
  chains [] s db = (s, db)
  chains (c ∷ cs) s db = let (s', db') = chain c s db in chains cs s' db'

  -- Scopes: the functions one after another, each on the DB that the one before returned
  unfoldable pub scopes : List (State S O → ℕ → State S O × ℕ) → State S O → ℕ → State S O × ℕ
  scopes [] s db = (s, db)
  scopes (f ∷ funcs) s db = let (s', db') = f s db in scopes funcs s' db'

  -- What gorm makes of a query by the calls, one after another
  unfoldable pub built : List (Call V) → S → O → S × O
  unfolding called
  built [] w o = (w, o)
  built (c ∷ cs) w o = let made = called c w o in built cs made.0 made.1

  -- A chain of calls on a DB returns that DB, has it hold what gorm makes of the query that it held
  -- before by all these calls, and leaves every other DB as it was.
  pub chains_lem :
      (cs : List (Call V)) (s : State S O) (db : ℕ)
      → ((chains cs s db).1 ≡ db)
        × ((chains cs s db).0.orms db ≡ (built cs s.world (s.orms db)).1)
        × ((chains cs s db).0.world ≡ (built cs s.world (s.orms db)).0)
        × ((other : ℕ) → other ≢ db → (chains cs s db).0.orms other ≡ s.orms other)
  unfolding chains chain built called
  chains_lem [] s db = (refl, refl, refl, λ other ne. refl)
  chains_lem (c ∷ cs) s db =
      let s' = (chain c s db).0 in
      let (same, holds, world, others) = chains_lem cs s' db in
      let now = put_at s.orms db (called c s.world (s.orms db)).1 in
      (
        same,
        holds ∙ ap (λ o. (built cs s'.world o).1) now,
        world ∙ ap (λ o. (built cs s'.world o).0) now,
        λ other ne. others other ne ∙ put_elsewhere s.orms db other _ ne,
      )
