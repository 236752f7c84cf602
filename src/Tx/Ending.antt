-- ===== src/Tx/Ending.antt =====
-- What a transaction leaves in the map of txManager, and in its databases.
use jian_yu_server_lib.Base.{
  ℕ, ◌≡◌, ◌≢◌, refl, ap, sym, ◌∙◌, Option, none, some, [], ◌∷◌, ◌++◌, arith, inl, inr, Option-cases,
}
use mathlib.Core.Path.{fun_ext}
use jian_yu_server_lib.Base.Outcome.{returned}
use jian_yu_server_lib.Strings.{Str}
use package.jian_yu_server_lib.Tx.{
  Err, Gorm, State, Dbs, put, run, db_error, end_all, forget, end_tx, commit, rollback, Ran,
  finished, fn_panicked, tx_of, after_commit, after_fn, transaction,
}

put_lem : {A : Type 0} (f : ℕ → Option A) (i : ℕ) (a : Option A) → put f i a i ≡ a
put_lem f i a = ground arith

put_other : {A : Type 0} (f : ℕ → Option A) (i j : ℕ) (a : Option A) → j ≢ i → put f i a j ≡ f j
put_other f i j a ne = ground (arith, ne)

-- The map `after` has nothing for `tc`, and is `before` elsewhere.
abbrev Cleared : (ℕ → Option Dbs) → ℕ → (ℕ → Option Dbs) → Type 0
Cleared before tc after =
    (after tc ≡ none) × ((tx_id : ℕ) → tx_id ≢ tc → after tx_id ≡ before tx_id)

Cleared-ended : (f g : ℕ → Option Dbs) (tc : ℕ) → g ≡ put f tc none → Cleared f tc g
Cleared-ended f g tc e = (
  ap (λ g. g tc) e ∙ put_lem f tc none,
  λ tx_id ne. ap (λ g. g tx_id) e ∙ put_other f tc tx_id none ne,
)

Cleared-put :
    (f g h : ℕ → Option Dbs) (tc : ℕ) → Cleared f tc g → h ≡ put g tc none → Cleared f tc h
Cleared-put f g h tc c e =
    let ended = Cleared-ended g h tc e in (ended.0, λ tx_id ne. ended.1 tx_id ne ∙ c.1 tx_id ne)

put_twice : {A : Type 0} (f : ℕ → Option A) (i j : ℕ) → put (put f i none) i none j ≡ put f i none j
put_twice f i j = ground arith

module _ {ℓ} {S O : Type ℓ} (gorm : Gorm S O) where
  end_all-m :
      (op : S → O → S × O) (dbs : Dbs) (st : State S O) → (end_all gorm op dbs st).0.m ≡ st.m
  unfolding end_all
  end_all-m op [] st = refl
  end_all-m op ((name, db) ∷ dbs) st = elim (Option-cases (db_error gorm (run gorm op st db) db)) [
    | inl e ↦ rw (end_all, e) (end_all-m op dbs (run gorm op st db))
    | inr (err, e) ↦ rw (end_all, e) refl
  ]

  -- The end of a transaction removes its databases from the map, and no other transaction's.
  end_tx-m :
      (op : S → O → S × O) (order : Dbs → Dbs) (st : State S O) (tx_id : ℕ)
      → (end_tx gorm op order st tx_id).0.m ≡ put st.m tx_id none
  end_tx-m op order st tx_id = elim (Option-cases (st.m tx_id)) [
    | inl e ↦ rw (end_tx, e) refl
    | inr (dbs, e) ↦ rw (end_tx, e) (ap (λ m. put m tx_id none) (end_all-m op (order dbs) st))
  ]

  after_commit-Cleared {κ} :
      {R : Type κ} (order : Dbs → Dbs) (f : ℕ → Option Dbs) (tc : ℕ) (resp : R) (done : State S O)
      (err : Option Err)
      → Cleared f tc done.m
      → Cleared f tc (after_commit gorm order tc resp done err).0.m
  unfolding after_commit rollback
  after_commit-Cleared order f tc resp done none c = c
  after_commit-Cleared order f tc resp done (some e) c =
      Cleared-put f done.m _ tc c (end_tx-m gorm.rollback order done tc)

  after_fn-Cleared {κ} :
      {R : Type κ} (order : Dbs → Dbs) (tc : ℕ) (ran : Ran R) (left : State S O)
      → Cleared left.m tc (after_fn gorm order tc ran left).0.m
  unfolding after_fn rollback commit
  after_fn-Cleared order tc fn_panicked left =
      Cleared-ended left.m _ tc (end_tx-m gorm.rollback order left tc)
  after_fn-Cleared order tc (finished resp (some e)) left =
      Cleared-ended left.m _ tc (end_tx-m gorm.rollback order left tc)
  after_fn-Cleared order tc (finished resp none) left =
      after_commit-Cleared order left.m tc resp (end_tx gorm gorm.commit order left tc).0
        (end_tx gorm gorm.commit order left tc).1
        (Cleared-ended left.m _ tc (end_tx-m gorm.commit order left tc))

  -- However a transaction ends, by its function's error or panic, by a failed commit or by success,
  -- the map has no databases for it afterwards, and those of the other transactions are as its
  -- function left them.
  pub transaction_ends {κ} :
      {R : Type κ} (order : Dbs → Dbs) (st : State S O) (ctx : Option ℕ) (fresh : ℕ)
      (fn : ℕ → State S O → Ran R × State S O)
      → ((transaction gorm order st ctx fresh fn).0.m (tx_of ctx fresh) ≡ none)
        × ((tx_id : ℕ)
            → tx_id ≢ tx_of ctx fresh
            → (transaction gorm order st ctx fresh fn).0.m tx_id
              ≡ (fn (tx_of ctx fresh) st).1.m tx_id)
  transaction_ends order st ctx fresh fn =
      after_fn-Cleared order (tx_of ctx fresh) (fn (tx_of ctx fresh) st).0
        (fn (tx_of ctx fresh) st).1

  end_all-passed :
      (op : S → O → S × O) (name : Str) (db : ℕ) (dbs : Dbs) (st : State S O)
      → db_error gorm (run gorm op st db) db ≡ none
      → end_all gorm op ((name, db) ∷ dbs) st ≡ end_all gorm op dbs (run gorm op st db)
  unfolding end_all
  end_all-passed op name db dbs st e = rw (end_all, e) refl

  end_all-failed :
      (op : S → O → S × O) (name : Str) (db : ℕ) (dbs : Dbs) (st : State S O) (err : Err)
      → db_error gorm (run gorm op st db) db ≡ some err
      → end_all gorm op ((name, db) ∷ dbs) st ≡ (run gorm op st db, some err)
  unfolding end_all
  end_all-failed op name db dbs st err e = rw (end_all, e) refl

  -- The loop stops at the first database that fails.
  end_all-stops :
      (op : S → O → S × O) (before after : Dbs) (name : Str) (db : ℕ) (e : Err) (st : State S O)
      → (end_all gorm op before st).1 ≡ none
      → db_error gorm (run gorm op (end_all gorm op before st).0 db) db ≡ some e
      → end_all gorm op (before ++ ((name, db) ∷ after)) st
        ≡ (run gorm op (end_all gorm op before st).0 db, some e)
  unfolding end_all
  end_all-stops op [] after name db e st ok bad = end_all-failed op name db after st e bad
  end_all-stops op ((n, d) ∷ before) after name db e st ok bad =
      elim (Option-cases (db_error gorm (run gorm op st d) d)) [
        | inr (err, failed) ↦
            let never : none ≡ some err =
              sym ok ∙ ap (λ r. r.1) (end_all-failed op n d before st err failed) in
            absurd (ground arith)
        | inl passed ↦
            let p = end_all-passed op n d before st passed in
            end_all-passed op n d (before ++ ((name, db) ∷ after)) st passed
            ∙ end_all-stops op before after name db e (run gorm op st d)
                (ap (λ r. r.1) (sym p) ∙ ok)
                (ap (λ r. db_error gorm (run gorm op r.0 db) db) (sym p) ∙ bad)
            ∙ ap (λ r. (run gorm op r.0 db, some e)) (sym p)
      ]

  end_tx-some :
      (op : S → O → S × O) (order : Dbs → Dbs) (st st' : State S O) (tc : ℕ) (dbs : Dbs)
      (err : Option Err)
      → st.m tc ≡ some dbs
      → end_all gorm op (order dbs) st ≡ (st', err)
      → end_tx gorm op order st tc ≡ (forget gorm st' tc, err)
  end_tx-some op order st st' tc dbs err has e = rw (end_tx, has, e) refl

  end_tx-none :
      (op : S → O → S × O) (order : Dbs → Dbs) (st : State S O) (tc : ℕ)
      → st.m tc ≡ none
      → end_tx gorm op order st tc ≡ (forget gorm st tc, none)
  end_tx-none op order st tc e = rw (end_tx, e) refl

  forget-forget : (st : State S O) (tc : ℕ) → forget gorm (forget gorm st tc) tc ≡ forget gorm st tc
  forget-forget st tc = ap (λ m. record st { m = m }) (fun_ext (λ i. put_twice st.m tc i))

  after_commit-failed {κ} :
      {R : Type κ} (order : Dbs → Dbs) (st : State S O) (tc : ℕ) (resp : R) (e : Err)
      → after_commit gorm order tc resp (forget gorm st tc) (some e)
        ≡ (forget gorm st tc, returned (resp, some e))
  unfolding after_commit rollback
  after_commit-failed order st tc resp e =
      ap (λ r. (r.0, returned (resp, some e)))
        (end_tx-none gorm.rollback order (forget gorm st tc) tc (put_lem st.m tc none))
      ∙ ap (λ s. (s, returned (resp, some e))) (forget-forget st tc)

  after_fn-failed {κ} :
      {R : Type κ} (order : Dbs → Dbs) (left st' : State S O) (tc : ℕ) (resp : R) (e : Err)
      → end_tx gorm gorm.commit order left tc ≡ (forget gorm st' tc, some e)
      → after_fn gorm order tc (finished resp none) left
        ≡ (forget gorm st' tc, returned (resp, some e))
  unfolding after_fn commit
  after_fn-failed order left st' tc resp e p =
      ap (λ r. after_commit gorm order tc resp r.0 r.1) p ∙ after_commit-failed order st' tc resp e

  -- Where the function succeeds and a database refuses the commit, Transaction returns its error,
  -- and leaves the databases that were to follow as they are, neither committed nor rolled back.
  pub failed_commit_abandons {κ} :
      {R : Type κ} (order : Dbs → Dbs) (st left : State S O) (ctx : Option ℕ) (fresh : ℕ)
      (fn : ℕ → State S O → Ran R × State S O) (resp : R) (dbs before after : Dbs) (name : Str)
      (db : ℕ) (e : Err)
      → fn (tx_of ctx fresh) st ≡ (finished resp none, left)
      → left.m (tx_of ctx fresh) ≡ some dbs
      → order dbs ≡ before ++ ((name, db) ∷ after)
      → (end_all gorm gorm.commit before left).1 ≡ none
      → db_error gorm (run gorm gorm.commit (end_all gorm gorm.commit before left).0 db) db ≡ some e
      → transaction gorm order st ctx fresh fn ≡ (
        forget gorm
            (run gorm gorm.commit (end_all gorm gorm.commit before left).0 db)
            (tx_of ctx fresh),
        returned (resp, some e),
      )
  failed_commit_abandons order st left ctx fresh fn resp dbs before after name db e ran has met ok
        bad =
      ap (λ r. after_fn gorm order (tx_of ctx fresh) r.0 r.1) ran
      ∙ after_fn-failed order left _ (tx_of ctx fresh) resp e (
          end_tx-some gorm.commit order left _ (tx_of ctx fresh) dbs (some e) has (
            ap (λ l. end_all gorm gorm.commit l left) met
            ∙ end_all-stops gorm.commit before after name db e left ok bad))
