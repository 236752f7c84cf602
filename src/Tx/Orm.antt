-- ===== src/Tx/Orm.antt =====
-- The databases that NewOrm binds to a transaction.
use jian_yu_server_lib.Base.{
  ℕ, suc, ◌≡◌, ◌≢◌, refl, ap, sym, ◌∙◌, Option, none, some, [], ◌∷◌, arith, ◌⊎◌, inl, inr,
}
use jian_yu_server_lib.Base.Outcome.{Outcome, returned, panicked}
use jian_yu_server_lib.Strings.{Str}
use jian_yu_server_lib.Strings.Laws.{str_eq_iff}
use package.jian_yu_server_lib.Tx.{
  Err, Gorm, State, Dbs, lookup, assign, dbs_of, lookup_dbs, put, tm_get_db, begun_orm, begin_orm,
  bound_orm, new_orm,
}

lookup-assign : (name : Str) (db : ℕ) (dbs : Dbs) → lookup name (assign name db dbs) ≡ some db
unfolding lookup assign
lookup-assign name db [] = ground (arith, str_eq_iff name name)
lookup-assign name db ((k, old) ∷ dbs) =
    ground (arith, str_eq_iff k name, lookup-assign name db dbs)

lookup-assign_other :
    (name other : Str) (db : ℕ) (dbs : Dbs)
    → other ≢ name
    → lookup other (assign name db dbs) ≡ lookup other dbs
unfolding lookup assign
lookup-assign_other name other db [] ne = ground (arith, str_eq_iff name other)
lookup-assign_other name other db ((k, old) ∷ dbs) ne =
    ground (arith, str_eq_iff k name, str_eq_iff k other, lookup-assign_other name other db dbs ne)

put_other : (f : ℕ → Option Dbs) (i j : ℕ) (a : Option Dbs) → j ≢ i → put f i a j ≡ f j
put_other f i j a ne = ground (arith, ne)

put_lem : (f : ℕ → Option Dbs) (i : ℕ) (a : Option Dbs) → put f i a i ≡ a
put_lem f i a = ground arith

-- The value of a call, or another one where it panicked.
abbrev got {ℓ} : {A : Type ℓ} → A → Outcome A → A
got a (returned b) = b
got a panicked = a

module _ {ℓ} {S O : Type ℓ} (gorm : Gorm S O) where
  -- NewOrm has found the database, or has bound it in a map that was otherwise kept.
  abbrev Bound : State S O → State S O → ℕ → Str → ℕ → Type 0
  Bound st st' tx_id name db =
      ((tm_get_db gorm st name tx_id ≡ some db) × ((i : ℕ) → st'.m i ≡ st.m i))
      ⊎ ((i : ℕ) → st'.m i ≡ put st.m tx_id (some (assign name db (dbs_of (st.m tx_id)))) i)

  begun_orm-Bound :
      (st begun st' : State S O) (tx_id : ℕ) (name : Str) (db db' : ℕ) (err : Option Err)
      → begun.m ≡ st.m
      → begun_orm gorm begun tx_id name db err ≡ returned (db', st')
      → Bound st st' tx_id name db'
  unfolding begun_orm
  begun_orm-Bound st begun st' tx_id name db db' (some e) same h = absurd (ground arith)
  begun_orm-Bound st begun st' tx_id name db db' none same h =
      let same_call = ap (got (db', st')) h in
      inr (λ i.
        sym (ap (λ r. r.1.m i) same_call)
        ∙ ap (λ m. put m tx_id (some (assign name db (dbs_of (m tx_id)))) i) same
        ∙ ap (λ d. put st.m tx_id (some (assign name d (dbs_of (st.m tx_id)))) i)
            (ap (λ r. r.0) same_call))

  begin_orm-Bound :
      (st st' : State S O) (tx_id : ℕ) (name : Str) (db : ℕ) (engine : Option O)
      → begin_orm gorm tx_id name (elim engine [
        | none ↦ none
        | some engine ↦
            some (st.next, record st { orms = put st.orms st.next engine; next = suc st.next })
      ])
        ≡ returned (db, st')
      → Bound st st' tx_id name db
  unfolding begin_orm
  begin_orm-Bound st st' tx_id name db none h = absurd (ground arith)
  begin_orm-Bound st st' tx_id name db (some engine) h =
      begun_orm-Bound st _ st' tx_id name _ db _ refl h

  bound_orm-Bound :
      (engines : Str → Option O) (st st' : State S O) (tx_id : ℕ) (name : Str) (db : ℕ)
      (found : Option ℕ)
      → tm_get_db gorm st name tx_id ≡ found
      → bound_orm gorm engines st tx_id name found ≡ returned (db, st')
      → Bound st st' tx_id name db
  unfolding bound_orm
  bound_orm-Bound engines st st' tx_id name db none e h =
      begin_orm-Bound st st' tx_id name db (engines name) h
  bound_orm-Bound engines st st' tx_id name db (some db') e h = inl (
    e ∙ ap (λ r. some r.0) (ap (got (db, st')) h),
    λ i. sym (ap (λ r. r.1.m i) (ap (got (db, st')) h)),
  )

  Bound-found :
      (st st' : State S O) (tx_id : ℕ) (name : Str) (db : ℕ)
      → Bound st st' tx_id name db
      → tm_get_db gorm st' name tx_id ≡ some db
  Bound-found st st' tx_id name db (inl (e, same)) = ap (lookup_dbs name) (same tx_id) ∙ e
  Bound-found st st' tx_id name db (inr new) =
      ap (lookup_dbs name) (new tx_id ∙ put_lem st.m tx_id _)
      ∙ lookup-assign name db (dbs_of (st.m tx_id))

  lookup-dbs_of : (name : Str) (o : Option Dbs) → lookup name (dbs_of o) ≡ lookup_dbs name o
  unfolding lookup
  lookup-dbs_of name none = refl
  lookup-dbs_of name (some dbs) = refl

  Bound-other :
      (st st' : State S O) (tx_id : ℕ) (name : Str) (db : ℕ) (other : Str)
      → Bound st st' tx_id name db
      → other ≢ name
      → tm_get_db gorm st' other tx_id ≡ tm_get_db gorm st other tx_id
  Bound-other st st' tx_id name db other (inl (e, same)) ne = ap (lookup_dbs other) (same tx_id)
  Bound-other st st' tx_id name db other (inr new) ne =
      ap (lookup_dbs other) (new tx_id ∙ put_lem st.m tx_id _)
      ∙ lookup-assign_other name other db (dbs_of (st.m tx_id)) ne
      ∙ lookup-dbs_of other (st.m tx_id)

  Bound-outside :
      (st st' : State S O) (tx_id : ℕ) (name : Str) (db tx_id' : ℕ)
      → Bound st st' tx_id name db
      → tx_id' ≢ tx_id
      → st'.m tx_id' ≡ st.m tx_id'
  Bound-outside st st' tx_id name db tx_id' (inl (e, same)) ne = same tx_id'
  Bound-outside st st' tx_id name db tx_id' (inr new) ne =
      new tx_id' ∙ put_other st.m tx_id tx_id' _ ne

  -- Inside a transaction, a database that NewOrm returned is the one that it returns again for the
  -- name, in the state that the first call left, and the other names keep theirs.
  pub new_orm_again :
      (engines : Str → Option O) (st st' : State S O) (tx_id : ℕ) (name : Str) (db : ℕ)
      → new_orm gorm engines st (some tx_id) name ≡ returned (db, st')
      → (new_orm gorm engines st' (some tx_id) name
          ≡ returned (db, record st' { orms = put st'.orms db (gorm.new_session (st'.orms db)) }))
        × ((other : Str)
            → other ≢ name
            → tm_get_db gorm st' other tx_id ≡ tm_get_db gorm st other tx_id)
        × ((tx_id' : ℕ) → tx_id' ≢ tx_id → st'.m tx_id' ≡ st.m tx_id')
  unfolding new_orm bound_orm
  new_orm_again engines st st' tx_id name db h =
      let bound =
        bound_orm-Bound engines st st' tx_id name db (tm_get_db gorm st name tx_id) refl h in
      (
        ap (bound_orm gorm engines st' tx_id name) (Bound-found st st' tx_id name db bound),
        λ other ne. Bound-other st st' tx_id name db other bound ne,
        λ tx_id' ne. Bound-outside st st' tx_id name db tx_id' bound ne,
      )
