-- ===== src/Tx/Tests.antt =====
-- Three databases on a driver that counts its commits, and refuses the one of the handle 7; a
-- rollback counts as 100.
use jian_yu_server_lib.Base.{
  ℕ, ◌+◌, ◌≡◌, ◌≢◌, refl, none, some, Option, [], ◌∷◌, ◌==◌, if◌then◌else◌,
}
use jian_yu_server_lib.Base.Outcome.{returned}
use jian_yu_server_lib.Strings.{Str, str}
use package.jian_yu_server_lib.Tx.{
  Gorm, State, Dbs, Ran, other, finished, fn_panicked, put, tm_get_db, run, end_all, forget, commit,
  rollback, after_fn, after_commit, new_orm, bound_orm, begin_orm, begun_orm, lookup, assign,
  transaction,
}
use package.jian_yu_server_lib.Tx.Ending.{transaction_ends, failed_commit_abandons}
use package.jian_yu_server_lib.Tx.Orm.{new_orm_again}

abbrev counting : Gorm ℕ ℕ
counting = record {
  begin = λ s o. (s, o);
  commit = λ s o. if o == 7 then (s, 99) else (s + 1, o);
  rollback = λ s o. (s + 100, o);
  error = λ o. if o == 99 then some (other (str "refused")) else none;
  new_session = λ o. o;
}

abbrev three_dbs : Dbs
three_dbs = (str "a", 0) ∷ (str "b", 1) ∷ (str "c", 2) ∷ []

abbrev three_open : State ℕ ℕ
three_open = record {
  world = 0;
  orms = λ db. if db == 1 then 7 else db;
  next = 3;
  m = λ tx_id. if tx_id == 5 then some three_dbs else none;
}

abbrev same_order : Dbs → Dbs
same_order dbs = dbs

abbrev succeed : ℕ → State ℕ ℕ → Ran ℕ × State ℕ ℕ
succeed tc st = (finished 8 none, st)

abbrev panic : ℕ → State ℕ ℕ → Ran ℕ × State ℕ ℕ
panic tc st = (fn_panicked, st)

abbrev engines : Str → Option ℕ
engines name = some 4

transaction_ends_example :
    ((transaction counting same_order three_open (some 5) 9 succeed).0.m 5 ≡ none)
    × ((tx_id : ℕ)
        → tx_id ≢ 5
        → (transaction counting same_order three_open (some 5) 9 succeed).0.m tx_id
          ≡ three_open.m tx_id)
transaction_ends_example = transaction_ends counting same_order three_open (some 5) 9 succeed

failed_commit_abandons_example : transaction counting same_order three_open (some 5) 9 succeed ≡ (
  forget counting
      (run counting counting.commit
        (end_all counting counting.commit ((str "a", 0) ∷ []) three_open).0
        1)
      5,
  returned (8, some (other (str "refused"))),
)
unfolding end_all
failed_commit_abandons_example =
    failed_commit_abandons counting same_order three_open three_open (some 5) 9 succeed 8 three_dbs
      ((str "a", 0) ∷ []) ((str "c", 2) ∷ []) (str "b") 1 (other (str "refused")) refl refl refl
      refl refl

abbrev first_orm : State ℕ ℕ
first_orm = record {
  world = 0;
  orms = put (put three_open.orms 3 4) 3 4;
  next = 4;
  m = put three_open.m 6 (some ((str "a", 3) ∷ []));
}

new_orm_again_example :
    (new_orm counting engines first_orm (some 6) (str "a")
      ≡ returned (3, record first_orm { orms = put first_orm.orms 3 (first_orm.orms 3) }))
    × ((name : Str)
        → name ≢ str "a"
        → tm_get_db counting first_orm name 6 ≡ tm_get_db counting three_open name 6)
    × ((tx_id : ℕ) → tx_id ≢ 6 → first_orm.m tx_id ≡ three_open.m tx_id)
unfolding new_orm bound_orm begin_orm begun_orm lookup assign
new_orm_again_example = new_orm_again counting engines three_open first_orm 6 (str "a") 3 refl

-- What the transaction with the refused commit comes to: one commit and no rollback.
refused_world : (transaction counting same_order three_open (some 5) 9 succeed).0.world ≡ 1
unfolding end_all commit rollback after_fn after_commit
refused_world = refl

panicked_world : (transaction counting same_order three_open (some 5) 9 panic).0.world ≡ 300
unfolding end_all commit rollback after_fn after_commit
panicked_world = refl
