-- ===== src/Tx.antt =====
-- pkg/zdb/zdb.go, tx_manager.go, db_manager.go, context.go and the end of db.go: the database handles
-- of a transaction and what Commit, Rollback and Transaction do with them. gorm.io/gorm is a
-- parameter. Each function of txManager runs under its mutex.
pub mod Ending
pub mod Orm
pub mod Chain
mod Tests
use jian_yu_server_lib.Base.{
  ℕ, suc, Bool, true, false, Option, none, some, List, [], ◌∷◌, ◌==◌, if◌then◌else◌,
}
use jian_yu_server_lib.Base.Outcome.{Outcome, returned, panicked, or_panic}
use jian_yu_server_lib.Strings.{Str, str_eq}

-- gorm.ErrRecordNotFound, ErrRecordNotFound of error.go, and the other errors by their texts.
pub data Err : Type 0 where
  gorm_not_found : Err
  not_found : Err
  other : Str → Err

-- gorm: `S` is what its databases hold, `O` a *gorm.DB. Each operation returns a new *gorm.DB;
-- new_session is `Session(NewDB: true)` with its Error set to nil.
pub record Gorm {ℓ} (S O : Type ℓ) : Type ℓ where
  pub begin : S → O → S × O
  pub commit : S → O → S × O
  pub rollback : S → O → S × O
  pub error : O → Option Err
  pub new_session : O → O

-- A map of names to *DB, in some order.
abbrev pub Dbs : Type 0
Dbs = List (Str × ℕ)

-- The databases; the memory of the DB objects, those below `next` having been made; the map of
-- txManager.
pub record State {ℓ} (S O : Type ℓ) : Type ℓ where
  pub world : S
  pub orms : ℕ → O
  pub next : ℕ
  pub m : ℕ → Option Dbs

unfoldable pub lookup : Str → Dbs → Option ℕ
lookup name [] = none
lookup name ((k, db) ∷ dbs) = let rest = lookup name dbs in if str_eq k name then some db else rest

-- `dbs[name] = db`
unfoldable pub assign : Str → ℕ → Dbs → Dbs
assign name db [] = (name, db) ∷ []
assign name db ((k, old) ∷ dbs) =
    let rest = assign name db dbs in if str_eq k name then (k, db) ∷ dbs else (k, old) ∷ rest

-- A missing map is read as an empty one, and made when it is written.
abbrev pub dbs_of : Option Dbs → Dbs
dbs_of none = []
dbs_of (some dbs) = dbs

abbrev pub lookup_dbs : Str → Option Dbs → Option ℕ
lookup_dbs name none = none
lookup_dbs name (some dbs) = lookup name dbs

abbrev pub put {ℓ} : {A : Type ℓ} → (ℕ → A) → ℕ → A → ℕ → A
put f i a x = if x == i then a else f x

-- What the function that is given to Transaction does: it returns a value and an error, or panics.
pub data Ran {κ} (R : Type κ) : Type κ where
  finished : R → Option Err → Ran R
  fn_panicked : Ran R

-- BeginTx makes a context with a new id, here `fresh`; a transaction inside another one keeps the
-- context that it is given.
abbrev pub tx_of : Option ℕ → ℕ → ℕ
tx_of none fresh = fresh
tx_of (some tx_id) fresh = tx_id

module _ {ℓ} {S O : Type ℓ} (gorm : Gorm S O) where
  -- txManager.getDB
  abbrev pub tm_get_db : State S O → Str → ℕ → Option ℕ
  tm_get_db st name tx_id = lookup_dbs name (st.m tx_id)

  -- addDB
  abbrev pub add_db : State S O → Str → ℕ → ℕ → State S O
  add_db st name tx_id db = record st {
    m = put st.m tx_id (some (assign name db (dbs_of (st.m tx_id))));
  }

  -- dbManager.getDB: a new DB object on the connection of the name.
  abbrev pub dm_get_db : (Str → Option O) → State S O → Str → Option (ℕ × State S O)
  dm_get_db engines st name = elim (engines name) [
    | none ↦ none
    | some engine ↦
        some (st.next, record st { orms = put st.orms st.next engine; next = suc st.next })
  ]

  -- `db.orm = db.orm.op()` for Begin, Commit and Rollback.
  abbrev pub run : (S → O → S × O) → State S O → ℕ → State S O
  run op st db =
      let (world, orm) = op st.world (st.orms db) in
      record st { world = world; orms = put st.orms db orm }

  -- DB.Error
  abbrev pub db_error : State S O → ℕ → Option Err
  db_error st db = elim (gorm.error (st.orms db)) [ some gorm_not_found ↦ some not_found | e ↦ e ]

  -- The loop of Commit and of Rollback, up to the first error.
  unfoldable pub end_all : (S → O → S × O) → Dbs → State S O → State S O × Option Err
  end_all op [] st = (st, none)
  end_all op ((name, db) ∷ dbs) st =
      let st' = run op st db in
      let rest = end_all op dbs st' in
      elim (db_error st' db) [ none ↦ rest | some e ↦ (st', some e) ]

  abbrev pub forget : State S O → ℕ → State S O
  forget st tx_id = record st { m = put st.m tx_id none }

  -- Commit and Rollback; `order` is the order in which the loop meets the entries of a map.
  abbrev pub end_tx : (S → O → S × O) → (Dbs → Dbs) → State S O → ℕ → State S O × Option Err
  end_tx op order st tx_id = elim (st.m tx_id) [
    | none ↦ (forget st tx_id, none)
    | some dbs ↦ let (st', err) = end_all op (order dbs) st in (forget st' tx_id, err)
  ]

  unfoldable pub commit : (Dbs → Dbs) → State S O → ℕ → State S O × Option Err
  commit = end_tx gorm.commit

  unfoldable pub rollback : (Dbs → Dbs) → State S O → ℕ → State S O × Option Err
  rollback = end_tx gorm.rollback

  -- The part of NewOrm after the call of Begin, with the error that it left.
  unfoldable pub begun_orm : State S O → ℕ → Str → ℕ → Option Err → Outcome (ℕ × State S O)
  begun_orm begun tx_id name db (some e) = panicked
  begun_orm begun tx_id name db none = returned (db, add_db begun name tx_id db)

  -- The part of NewOrm after its call of dbManager.getDB in a transaction.
  unfoldable pub begin_orm : ℕ → Str → Option (ℕ × State S O) → Outcome (ℕ × State S O)
  unfolding begun_orm
  begin_orm tx_id name none = panicked
  begin_orm tx_id name (some (db, made)) =
      let begun = run gorm.begin made db in begun_orm begun tx_id name db (db_error begun db)

  -- The part of NewOrm after its call of txManager.getDB.
  unfoldable pub bound_orm :
      (Str → Option O) → State S O → ℕ → Str → Option ℕ → Outcome (ℕ × State S O)
  unfolding begin_orm
  bound_orm engines st tx_id name (some db) =
      returned (db, record st { orms = put st.orms db (gorm.new_session (st.orms db)) })
  bound_orm engines st tx_id name none = begin_orm tx_id name (dm_get_db engines st name)

  -- NewOrm, for a plain context, `none`, or the TxContext of a transaction.
  unfoldable pub new_orm : (Str → Option O) → State S O → Option ℕ → Str → Outcome (ℕ × State S O)
  unfolding bound_orm
  new_orm engines st none name = or_panic (dm_get_db engines st name)
  new_orm engines st (some tx_id) name = bound_orm engines st tx_id name (tm_get_db st name tx_id)

  -- The part of Transaction after the call of Commit, the deferred function included, which ignores
  -- what Rollback returns.
  unfoldable pub after_commit {κ} :
      {R : Type κ}
      → (Dbs → Dbs)
      → ℕ
      → R
      → State S O
      → Option Err
      → State S O × Outcome (R × Option Err)
  after_commit order tc resp done none = (done, returned (resp, none))
  after_commit order tc resp done (some e) = ((rollback order done tc).0, returned (resp, some e))

  -- The part of Transaction after the call of its function.
  unfoldable pub after_fn {κ} :
      {R : Type κ} → (Dbs → Dbs) → ℕ → Ran R → State S O → State S O × Outcome (R × Option Err)
  after_fn order tc fn_panicked left = ((rollback order left tc).0, panicked)
  after_fn order tc (finished resp (some e)) left =
      ((rollback order left tc).0, returned (resp, some e))
  after_fn order tc (finished resp none) left =
      let (done, err) = commit order left tc in after_commit order tc resp done err

  abbrev pub transaction {κ} :
      {R : Type κ}
      → (Dbs → Dbs)
      → State S O
      → Option ℕ
      → ℕ
      → (ℕ → State S O → Ran R × State S O)
      → State S O × Outcome (R × Option Err)
  transaction order st ctx fresh fn =
      let tc = tx_of ctx fresh in let (ran, left) = fn tc st in after_fn order tc ran left
