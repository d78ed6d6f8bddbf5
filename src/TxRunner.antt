-- ===== src/TxRunner.antt =====
-- internal/platform/db/txrunner/incidents.go, and the repository of the incidents as the service
-- has it: both over the database.
use geo_notifications_servic.World.{Env}
use geo_notifications_servic.Db.{Scope, pool, within_tx_root}
use geo_notifications_servic.Ports.{IncidentsRepository, Checker, OutboxRepository, TxRunner}
use geo_notifications_servic.Incidents
use geo_notifications_servic.Outbox

-- `incidentsdb.New` over the pool.
abbrev pub base_repository : Env → IncidentsRepository
base_repository env = record {
  create = Incidents.create env pool;
  get_by_id = Incidents.get_by_id env pool;
  list = Incidents.list env pool;
  update = Incidents.update env pool;
  deactivate = Incidents.deactivate env pool;
  find_nearby = Incidents.find_nearby env pool;
  count_unique_users_since = Incidents.count_unique_users_since env pool;
}

abbrev pub checker : Env → Scope → Checker
checker env scope = record { record_check = Incidents.record_check env scope }

-- `outboxWriterAdapter`.
abbrev pub outbox_writer : Env → Scope → OutboxRepository
outbox_writer env scope = record { enqueue = Outbox.enqueue env scope }

abbrev pub tx_runner : Env → TxRunner
tx_runner env = record {
  within_tx = λ fn. within_tx_root env (λ scope. fn (checker env scope) (outbox_writer env scope));
}
