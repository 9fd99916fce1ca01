-- ===== src/Pg/Transaction.antt =====
-- `SQLConnectionAsync`, `SQLTransactionAsync` and `SQLChangeAsync` (sql_transaction_async.rs) over
-- the contents of a database.
pub mod Atomic
use doka_one.Prelude.{
  ℕ, ◌+◌, Bool, true, false, if◌then◌else◌, Failure, failure, Option, none, some, Outcome,
}
use doka_one.Prelude.Effects.{Run, pure, fail, ◌>>=◌, ◌>>◌}

-- What a connection of the driver stands for. `working` is what the open transaction sees. A
-- transaction that is dropped leaves `committed` as it is, and `begin` starts from `committed`. `calls`
-- counts the requests to the server. A commit that is reported to have failed may have taken effect,
-- if its reply was lost: `lands` says at which requests it does.
pub record Database (S : Type 0) : Type 0 where
  pub committed : S
  pub working : S
  pub calls : ℕ
  pub lands : ℕ → Bool

-- Any request may fail, for any reason: the server is gone, no connection is free, a constraint is
-- broken. `fails` says at which requests.
module _ {S : Type 0} (fails : ℕ → Bool) where
  unfoldable pub request : {A : Type 0} → (S → S → A × (S × S)) → Run (Database S) Failure A
  request f d =
      let (a, (c, w)) = f d.committed d.working in
      let done = pure a (record d { committed = c; working = w; calls = d.calls + 1 }) in
      if fails d.calls then fail failure (record d { calls = d.calls + 1 }) else done

  -- `SQLConnectionAsync::from_pool()`
  unfoldable pub from_pool : Run (Database S) Failure (Unit {0})
  unfolding request
  from_pool = request (λ c w. (tt, (c, w)))

  -- `cnx.begin()`
  unfoldable pub begin : Run (Database S) Failure (Unit {0})
  unfolding request
  begin = request (λ c w. (tt, (c, c)))

  -- A statement: `insert`, `update`, `delete`, or a query that reads.
  unfoldable pub execute : {A : Type 0} → (S → A × S) → Run (Database S) Failure A
  unfolding request
  execute f = request (λ c w. ((f w).0, (c, (f w).1)))

  -- `trans.commit()`
  unfoldable pub commit : Run (Database S) Failure (Unit {0})
  commit d =
      let done = pure tt (record d { committed = d.working; calls = d.calls + 1 }) in
      let landed = if d.lands d.calls then d.working else d.committed in
      if fails d.calls
      then fail failure (record d { committed = landed; calls = d.calls + 1 })
      else done

  -- `SQLChangeAsync::insert_no_pk`, `update` and `delete`.
  unfoldable pub change : (S → S) → Run (Database S) Failure (Unit {0})
  unfolding execute
  change f = execute (λ s. (tt, f s))

  abbrev pub execute_some : Option S → Run (Database S) Failure (Unit {0})
  unfolding execute
  execute_some none d = fail failure (record d { calls = d.calls + 1 })
  execute_some (some s) d = execute (λ _. (tt, s)) d

  -- A change that a constraint of the table may refuse.
  unfoldable pub constrained : (S → Option S) → Run (Database S) Failure (Unit {0})
  unfolding execute
  constrained f d = execute_some (f d.working) d

  -- `SQLChangeAsync::insert`: the change, and a query of the number that the sequence gave last.
  unfoldable pub insert : (S → S) → (S → ℕ) → Run (Database S) Failure ℕ
  unfolding change execute
  insert f currval = change f >> execute (λ s. (currval s, s))

  -- The calls around the statements of a function: a connection, a transaction on it, and its commit.
  -- Where the statements return early, the transaction is dropped.
  unfoldable pub transact : {A : Type 0} → Run (Database S) Failure A → Run (Database S) Failure A
  unfolding from_pool begin commit
  transact body = do from_pool; begin; a ← body; commit; pure a
