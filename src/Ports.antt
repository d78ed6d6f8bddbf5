-- ===== src/Ports.antt =====
-- The interfaces of internal/app/incidents/service.go, as records of functions on the world.
use geo_notifications_servic.Prelude.{ℕ, String, List, ℤ}
use geo_notifications_servic.Domain.{
  Point, Incident, CreateIncident, UpdateIncident, ListFilter, NearbyIncident,
}
use geo_notifications_servic.World.Exec.{M}

pub record IncidentsRepository : Type 0 where
  pub create : CreateIncident → M Incident
  pub get_by_id : ℤ → M Incident
  pub list : ListFilter → M (List Incident)
  pub update : ℤ → UpdateIncident → M Incident
  pub deactivate : ℤ → M (Unit {0})
  pub find_nearby : Point → ℤ → M (List NearbyIncident)
  pub count_unique_users_since : ℕ → M ℕ

pub record Checker : Type 0 where
  pub record_check : String → Point → List ℕ → M ℕ

pub record OutboxRepository : Type 0 where
  pub enqueue : String → String → M (Unit {0})

pub record TxRunner : Type 0 where
  pub within_tx : (Checker → OutboxRepository → M (Unit {0})) → M (Unit {0})
