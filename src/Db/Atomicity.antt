-- ===== src/Db/Atomicity.antt =====
-- A unit of work is all or nothing.
use geo_notifications_servic.Prelude.{suc, ◌≡◌, ◌⊎◌, inl, inr, false, arith, refl}
use geo_notifications_servic.World.{World, Env, Reply, fine, failed, Tables}
use geo_notifications_servic.World.Exec.{Result, ok, err, panicked, M}
use geo_notifications_servic.Db.{Scope, pool, tx, commit, finish, begin, within_tx}

module _ {ℓ} {A : Type ℓ} where
  commit-all_or_nothing :
      (r : Reply) (t : Tables) (a : A) (w : World)
      → ((commit r t a w).1.tables ≡ t) ⊎ ((commit r t a w).1.tables ≡ w.tables)
  unfolding commit
  commit-all_or_nothing r t a w = ground arith

  finish-all_or_nothing :
      (env : Env) (t : Tables) (r : Result A) (w : World)
      → ((finish env t (r, w)).1.tables ≡ t)
        ⊎ ((a : A) × (r ≡ ok a) × ((finish env t (r, w)).1.tables ≡ w.tables))
  unfolding finish
  finish-all_or_nothing env t (err e) w = inl refl
  finish-all_or_nothing env t (panicked p) w = inl refl
  finish-all_or_nothing env t (ok a) w =
      elim (commit-all_or_nothing (env.reply w.calls) t a (record w { calls = suc w.calls })) [
        | inl back ↦ inl back
        | inr kept ↦ inr (a, refl, kept)
      ]

module _ {ℓ} {A : Type ℓ} (env : Env) (fn : Scope → M A) (w : World) where
  -- The world in which the body of the transaction runs.
  abbrev pub opened : World
  opened = record w { calls = suc w.calls; aborted = false; started = env.clock w.calls }

  abbrev pub body : Result A × World
  body = fn tx opened

  -- If a unit of work returns a value, its body returned the same value, no statement of it had
  -- failed, and the tables are those that the body left.
  pub within_tx-ok :
      (a : A)
      → (within_tx env pool fn w).0 ≡ ok a
      → (body.0 ≡ ok a)
        × (body.1.aborted ≡ false)
        × ((within_tx env pool fn w).1.tables ≡ body.1.tables)
  unfolding within_tx
  within_tx-ok a h = ground arith

  begin-all_or_nothing :
      (r : Reply)
      → ((begin env r fn w).1.tables ≡ w.tables)
        ⊎ ((a : A) × (body.0 ≡ ok a) × ((begin env r fn w).1.tables ≡ body.1.tables))
  unfolding begin
  begin-all_or_nothing (failed reached e) = inl refl
  begin-all_or_nothing fine = finish-all_or_nothing env w.tables body.0 body.1

  -- Whatever fails, the tables after a unit of work are those from before it, or those that its body
  -- has left; the latter only if the body succeeded.
  pub within_tx-all_or_nothing :
      ((within_tx env pool fn w).1.tables ≡ w.tables)
      ⊎ ((a : A) × (body.0 ≡ ok a) × ((within_tx env pool fn w).1.tables ≡ body.1.tables))
  unfolding within_tx
  within_tx-all_or_nothing = begin-all_or_nothing (env.reply w.calls)

  -- Begun, run and committed without a failure.
  pub within_tx-commits :
      (a : A)
      → env.reply w.calls ≡ fine
      → env.reply body.1.calls ≡ fine
      → body.0 ≡ ok a
      → body.1.aborted ≡ false
      → ((within_tx env pool fn w).0 ≡ ok a) × ((within_tx env pool fn w).1.tables ≡ body.1.tables)
  unfolding within_tx
  within_tx-commits a b c h k = ground arith
