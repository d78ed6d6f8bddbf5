-- ===== src/Service/Keeps.antt =====
-- What recording a check keeps, from what its two repositories keep.
use geo_notifications_servic.Prelude.{ℕ, Option, none, some, String, List, [], ◌∷◌}
use geo_notifications_servic.Errs.{wrap_error}
use geo_notifications_servic.Domain.{Point, CheckCommand}
use geo_notifications_servic.World.{Env, Tables}
use geo_notifications_servic.Db.Keeps.{
  Keeps, Keeps-pure, Keeps-raise, Keeps-clock, Keeps-map_error, Keeps-bind,
}
use geo_notifications_servic.Ports.{Checker, OutboxRepository}
use geo_notifications_servic.Service.{completed, publish, marshalled, record_and_publish}

module _ {P : Tables → Type 0} (env : Env) (outbox : OutboxRepository)
    (k : (event_type payload : String) → Keeps P (outbox.enqueue event_type payload)) where
  Keeps-publish : (c : CheckCommand) (id : ℕ) (ids : List ℕ) → Keeps P (publish env c outbox id ids)
  unfolding publish marshalled
  Keeps-publish c id [] = Keeps-pure tt
  Keeps-publish c id (i ∷ is) = Keeps-bind _ _ (Keeps-clock (λ w. env.clock w.calls)) λ now.
      Keeps-bind _ _
        (encoded (env.marshal_event (completed c id (i ∷ is) now))
          "incidents.app.check_and_record.marshal_event")
        (λ b.
          Keeps-map_error (wrap_error "incidents.app.check_and_record.enqueue_outbox")
            (outbox.enqueue "location_check" b) (k "location_check" b))
    where
      encoded : (text : Option String) (op : String) → Keeps P (marshalled text op)
      encoded none op = Keeps-raise _
      encoded (some b) op = Keeps-pure b

  pub Keeps-record_and_publish :
      (checker : Checker)
      → ((user_id : String) (p : Point) (ids : List ℕ)
          → Keeps P (checker.record_check user_id p ids))
      → (c : CheckCommand) (ids : List ℕ) → Keeps P (record_and_publish env c ids checker outbox)
  unfolding record_and_publish
  Keeps-record_and_publish checker kept c ids =
      Keeps-bind _ _ (Keeps-map_error _ _ (kept c.user_id c.point ids)) λ id. Keeps-publish c id ids
