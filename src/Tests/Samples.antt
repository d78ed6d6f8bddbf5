-- ===== src/Tests/Samples.antt =====
-- Sample data: a database with one incident, and environments in which calls succeed or fail.
use geo_notifications_servic.Prelude.{ℕ, true, false, ◌==◌, none, some, [], ◌∷◌, pos, if◌then◌else◌}
use geo_notifications_servic.Errs.{GoError, plain}
use geo_notifications_servic.Domain.{
  Point, UpdateIncident, CheckCommand, CheckCompleted, NearbyIncident,
}
use geo_notifications_servic.Domain.Floats.{Float64, bits_90}
use geo_notifications_servic.World.{
  World, Env, fine, failed, IncidentRow, OutboxRow, pending, dispatched,
}

abbrev pub zero_float : Float64
zero_float = record { negative = false; magnitude = 0 }

abbrev pub spot : Point
spot = record { lat = bits_90; lon = zero_float }

abbrev pub completed_event : CheckCompleted
completed_event = record {
  check_id = 3;
  user_id = "ann";
  point = spot;
  incident_ids = 1 ∷ [];
  occurred_at = 4;
}

-- Everything answers; the clock counts the calls.
abbrev pub good : Env
good = record {
  reply = λ n. fine;
  clock = λ n. n;
  locked = λ n id. false;
  distance = λ p q. zero_float;
  is_within = λ p q r. p.lat.magnitude == q.lat.magnitude;
  jsonb = λ t. some t;
  marshal_event = λ ev. some "{}";
  unmarshal_event = λ t. some completed_event;
  marshal_list = λ items. some "[]";
  unmarshal_list = λ t. some [];
  lost_tries = λ n. [];
  http_status = λ n. 204;
  resends = λ n. 0;
  is_valid_target = true;
}

abbrev pub broken : GoError
broken = plain "connection reset"

-- The n-th call fails.
abbrev pub failing : ℕ → Env
failing n = record good { reply = λ call. if call == n then failed 0 broken else fine }

-- The webhook's target answers with an error.
abbrev pub refusing : Env
refusing = record good { http_status = λ n. 500 }

abbrev pub fire : IncidentRow
fire = record {
  id = 1;
  title = "fire";
  description = some "smoke";
  center = spot;
  radius = pos 50;
  active = true;
  created_at = 0;
  updated_at = 0;
}

abbrev pub fire_nearby : NearbyIncident
fire_nearby = record {
  incident_id = 1;
  distance_meters = zero_float;
  title = "fire";
  description = "smoke";
  center = spot;
  radius = pos 50;
  created_at = 0;
  updated_at = 0;
}

abbrev pub outbox_row : ℕ → ℕ → OutboxRow
outbox_row id attempts = record {
  id = id;
  event_type = "location_check";
  payload = "{}";
  status = pending;
  attempts = attempts;
  processing_until = none;
  next_attempt_at = 0;
  last_error = none;
  created_at = 0;
  updated_at = 0;
}

abbrev pub start : World
start = record {
  tables = record {
    incidents = fire ∷ [];
    checks = [];
    links = [];
    outbox = outbox_row 1 0 ∷ outbox_row 2 10 ∷ [];
  };
  sequences = record { incident_id = 2; check_id = 3; outbox_id = 3 };
  aborted = false;
  started = 0;
  stream = [];
  processed = [];
  cache = record { version = none; pages = [] };
  posts = [];
  acked = [];
  calls = 0;
}

abbrev pub ask : CheckCommand
ask = record { user_id = "ann"; point = spot; limit = pos 10 }

-- Another row, dispatched and in the stream.
abbrev pub relayed : World
relayed = record start {
  tables = record start.tables {
    outbox = record (outbox_row 5 1) { status = dispatched } ∷ start.tables.outbox;
  };
  stream = record { event_type = "location_check"; payload = "{}"; outbox_id = 5 } ∷ [];
}

abbrev pub enlarged : UpdateIncident
enlarged = record { title = none; description = some ""; center = none; radius = some (pos 9) }
