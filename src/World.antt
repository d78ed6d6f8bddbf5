-- ===== src/World.antt =====
-- What the program talks to, as one state, and Go functions that return a value and an error as
-- functions on that state. The answer of the outside to the n-th call is `Env.reply n`: the
-- theorems hold for every such choice, failures in the middle of an operation included.
pub mod Exec
use geo_notifications_servic.Prelude.{ℕ, String, Bool, Option, List, ℤ}
use geo_notifications_servic.Errs.{GoError}
use geo_notifications_servic.Domain.{Point, Incident, CheckCompleted}
use geo_notifications_servic.Domain.Floats.{Float64}

-- migrations/: a row of `incidents`.
pub record IncidentRow : Type 0 where
  pub id : ℕ
  pub title : String
  pub description : Option String
  pub center : Point
  pub radius : ℤ
  pub active : Bool
  pub created_at : ℕ
  pub updated_at : ℕ

-- A row of `location_checks`.
pub record CheckRow : Type 0 where
  pub id : ℕ
  pub user_id : String
  pub location : Point
  pub created_at : ℕ

pub data Status : Type 0 where
  pending dispatched dead : Status

-- A row of `webhook_outbox`.
pub record OutboxRow : Type 0 where
  pub id : ℕ
  pub event_type : String
  pub payload : String
  pub status : Status
  pub attempts : ℕ
  pub processing_until : Option ℕ
  pub next_attempt_at : ℕ
  pub last_error : Option String
  pub created_at : ℕ
  pub updated_at : ℕ

-- The tables; each lists its rows in the order of insertion. `links` is `location_check_incidents`.
pub record Tables : Type 0 where
  pub incidents : List IncidentRow
  pub checks : List CheckRow
  pub links : List (ℕ × ℕ)
  pub outbox : List OutboxRow

-- The next value of each id column. A rollback does not set them back.
pub record Sequences : Type 0 where
  pub incident_id : ℕ
  pub check_id : ℕ
  pub outbox_id : ℕ

-- `queue.Item`: an entry of the Redis stream.
pub record Item : Type 0 where
  pub event_type : String
  pub payload : String
  pub outbox_id : ℕ

-- A webhook request that reached the target, or an address to which it was redirected.
pub record Post : Type 0 where
  pub body : String
  pub idempotency_key : ℕ

-- A page of active incidents in the cache: its key, `incidents:active:v…:limit:…:offset:…`, the JSON
-- text, and when it expires; none for never.
pub record Page : Type 0 where
  pub version : ℕ
  pub limit : ℤ
  pub offset : ℤ
  pub body : String
  pub expires : Option ℕ

-- The Redis database of the cache: the key `incidents:active:version`, and the pages. The version is
-- the number that its text shows; the program stores nothing else in it.
pub record Cache : Type 0 where
  pub version : Option ℕ
  pub pages : List Page

pub record World : Type 0 where
  pub tables : Tables
  pub sequences : Sequences
  -- Of the transaction that is open: whether a statement of it has failed, and its NOW().
  pub aborted : Bool
  pub started : ℕ
  -- Redis: the stream, and the keys `processed:<id>` with the times at which they expire.
  pub stream : List Item
  pub processed : List (ℤ × ℕ)
  pub posts : List Post
  -- The places of the stream's entries that the consumer group has acknowledged.
  pub acked : List ℕ
  pub cache : Cache
  -- How many calls of the outside have been made.
  pub calls : ℕ

-- How a call of the outside ends. One that fails may have been carried out all the same: `reached`
-- says how many of its writes were.
pub data Reply : Type 0 where
  fine : Reply
  failed : (reached : ℕ) → GoError → Reply

-- What the program does not implement.
pub record Env : Type 0 where
  pub reply : ℕ → Reply
  -- The clock at a call.
  pub clock : ℕ → ℕ
  -- Rows that another transaction has locked at a call.
  pub locked : ℕ → ℕ → Bool
  -- PostGIS: ST_Distance and ST_DWithin.
  pub distance : Point → Point → Float64
  pub is_within : Point → Point → ℤ → Bool
  -- The text of a value that is cast to `jsonb`; none where the cast fails.
  pub jsonb : String → Option String
  -- encoding/json for the event.
  pub marshal_event : CheckCompleted → Option String
  pub unmarshal_event : String → Option CheckCompleted
  -- encoding/json for a list of incidents.
  pub marshal_list : List Incident → Option String
  pub unmarshal_list : String → Option (List Incident)
  -- go-redis: the tries of a command at a call whose replies were lost, so that it was sent again; for
  -- each, how many of its writes Redis had carried out.
  pub lost_tries : ℕ → List ℕ
  -- The status code of the last answer that net/http gets at a call, redirects followed.
  pub http_status : ℕ → ℕ
  -- How often net/http has sent the request of a call again, with its body: after a network error on
  -- a connection that had been used before, or for a redirect with status 307 or 308.
  pub resends : ℕ → ℕ
  -- Whether net/http accepts the target's URL.
  pub is_valid_target : Bool
