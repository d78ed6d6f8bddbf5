-- ===== src/Db.antt =====
-- The database as the repositories use it. A statement is a function on the tables; `run_statement`
-- sends one through a pool connection or through the open transaction (`sqlx.ExtContext`), and
-- `within_tx` is internal/platform/db/uow/uow.go. Transactions are taken one at a time: the tables
-- at the start of one are what its rollback returns to.
pub mod Errs
pub mod Status
pub mod Atomicity
pub mod Keeps
pub mod Inversion
pub mod Counts
use geo_notifications_servic.Prelude.{
  ℕ, zero, suc, ◌+◌, Bool, true, false, Option, none, some, String, if◌then◌else◌,
}
use geo_notifications_servic.Errs.{GoError, prefixed, pg_error, plain}
use geo_notifications_servic.World.{World, Env, Reply, fine, failed, Tables, Sequences}
use geo_notifications_servic.World.Exec.{Result, ok, err, panicked, M}

-- A statement that the server accepts, and one that it refuses.
pub data SqlResult {ℓ} (A : Type ℓ) : Type ℓ where
  done : A → Tables → SqlResult A
  refused : GoError → SqlResult A

-- A statement reads NOW(), the tables and the next ids. The ids that it takes are gone, also if it
-- is refused.
abbrev pub Statement {ℓ} : Type ℓ → Type ℓ
Statement A = (now : ℕ) → Tables → Sequences → SqlResult A × Sequences

-- `Scope`: the pool, or a transaction; its method `InTx`.
pub data Scope : Type 0 where
  pool tx : Scope

unfoldable pub in_tx : Scope → Bool
in_tx pool = false
in_tx tx = true

-- The error of every statement of a transaction after one has failed.
abbrev pub in_failed_transaction : GoError
in_failed_transaction = pg_error "25P02" "current transaction is aborted"

abbrev called : World → World
called w = record w { calls = suc w.calls }

module _ {ℓ} {A : Type ℓ} where
  -- A refused statement changes no table, and spoils a transaction.
  settle : Scope → World → SqlResult A × Sequences → Result A × World
  settle scope w (done a t, s) = (ok a, record w { tables = t; sequences = s })
  settle scope w (refused e, s) =
      (err e, record w { sequences = s; aborted = if in_tx scope then true else w.aborted })

  -- The connection failed: the caller has the error, and the server may have carried it out.
  settle_failed : ℕ → GoError → World → SqlResult A × Sequences → Result A × World
  settle_failed zero e w r = (err e, w)
  settle_failed (suc n) e w (done a t, s) = (err e, record w { tables = t; sequences = s })
  settle_failed (suc n) e w (refused e', s) = (err e, record w { sequences = s })

  settle_reply : Scope → Reply → World → SqlResult A × Sequences → Result A × World
  settle_reply scope fine w r = settle scope w r
  settle_reply pool (failed reached e) w r = settle_failed reached e w r
  settle_reply tx (failed reached e) w r = (err e, record w { aborted = true })

  -- One statement; in a transaction NOW() is the time at which that began.
  unfoldable pub run_statement : Env → Scope → Statement A → M A
  unfolding settle settle_failed settle_reply in_tx
  run_statement env pool st w =
      settle_reply pool (env.reply w.calls) (called w) (st (env.clock w.calls) w.tables w.sequences)
  run_statement env tx st w =
      if w.aborted
      then (err in_failed_transaction, called w)
      else settle_reply tx (env.reply w.calls) (called w) (st w.started w.tables w.sequences)

  -- The commit of a transaction that began with the tables `t`.
  commit : Reply → Tables → A → World → Result A × World
  commit fine t a w =
      if w.aborted
      then (
        err (prefixed "commit tx" (plain "commit unexpectedly resulted in rollback")),
        record w { tables = t },
      )
      else (ok a, w)
  commit (failed zero e) t a w = (err (prefixed "commit tx" e), record w { tables = t })
  commit (failed (suc n) e) t a w =
      if w.aborted
      then (err (prefixed "commit tx" e), record w { tables = t })
      else (err (prefixed "commit tx" e), w)

  -- The deferred function: commit, or roll back and pass the error or the panic on.
  finish : Env → Tables → Result A × World → Result A × World
  finish env t (ok a, w) = commit (env.reply w.calls) t a (called w)
  finish env t (err e, w) = (err e, record (called w) { tables = t })
  finish env t (panicked p, w) = (panicked p, record (called w) { tables = t })

  begin : Env → Reply → (Scope → M A) → M A
  begin env (failed reached e) fn w = (err (prefixed "begin tx" e), called w)
  begin env fine fn w =
      finish env w.tables
        (fn tx (record (called w) { aborted = false; started = env.clock w.calls }))

  unfoldable pub within_tx : Env → Scope → (Scope → M A) → M A
  unfolding begin finish commit in_tx
  within_tx env scope fn w = if in_tx scope then fn scope w else begin env (env.reply w.calls) fn w

  unfoldable pub within_tx_root : Env → (Scope → M A) → M A
  unfolding within_tx
  within_tx_root env fn = within_tx env pool fn
