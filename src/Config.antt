-- ===== src/Config.antt =====
-- internal/platform/config/config.go: what the program reads from its environment. The library that
-- reads it (envconfig) is a parameter of `load`; the numbers are taken to fit their Go types.
use geo_notifications_servic.Prelude.{
  ℕ, ◌⊎◌, inl, inr, Option, none, some, String, List, [], ◌∷◌, ℤ, pos,
}
use geo_notifications_servic.Errs.{GoError}

pub record DbConfig : Type 0 where
  pub url : String
  pub max_idle_conns : ℤ
  pub max_open_conns : ℤ
  pub conn_max_lifetime : ℤ
  pub conn_max_idle_time : ℤ
  pub ping_timeout : ℤ

pub record RedisConfig : Type 0 where
  pub addr : String
  pub password : String
  pub cache_db : ℤ
  pub queue_db : ℤ
  pub timeout : ℤ

pub record WebhookConfig : Type 0 where
  pub stream : String
  pub group : String
  pub consumer : String
  pub url : String

-- A time to live below zero, which Redis refuses, is not modelled.
pub record Config : Type 0 where
  pub http_addr : String
  pub log_level : String
  pub active_incidents_ttl_seconds : ℕ
  pub db : DbConfig
  pub redis : RedisConfig
  pub api_key : String
  pub time_window_minutes : ℤ
  pub webhook : WebhookConfig
  pub outbox_relay_stream : String

-- `var cfg Config`
unfoldable pub zero_config : Config
zero_config = record {
  http_addr = "";
  log_level = "";
  active_incidents_ttl_seconds = 0;
  db = record {
    url = "";
    max_idle_conns = pos 0;
    max_open_conns = pos 0;
    conn_max_lifetime = pos 0;
    conn_max_idle_time = pos 0;
    ping_timeout = pos 0;
  };
  redis = record { addr = ""; password = ""; cache_db = pos 0; queue_db = pos 0; timeout = pos 0 };
  api_key = "";
  time_window_minutes = pos 0;
  webhook = record { stream = ""; group = ""; consumer = ""; url = "" };
  outbox_relay_stream = "";
}

-- The tags of a field: its default, or that it is required.
pub data Tag : Type 0 where
  default : String → Tag
  required : Tag

-- The fields, by their paths, with their tags.
unfoldable pub tags : List (List String × Tag)
tags =
    ("HTTP" ∷ "Addr" ∷ [], default ":8080")
    ∷ ("Log" ∷ "Level" ∷ [], default "info")
    ∷ ("Cache" ∷ "ActiveIncidentsTTLSeconds" ∷ [], default "60")
    ∷ ("DB" ∷ "URL" ∷ [], required)
    ∷ ("DB" ∷ "MaxIdleConns" ∷ [], default "2")
    ∷ ("DB" ∷ "MaxOpenConns" ∷ [], default "10")
    ∷ ("DB" ∷ "ConnMaxLifetime" ∷ [], default "1h")
    ∷ ("DB" ∷ "ConnMaxIdleTime" ∷ [], default "0")
    ∷ ("DB" ∷ "PingTimeout" ∷ [], default "5s")
    ∷ ("Redis" ∷ "Addr" ∷ [], default "localhost:6379")
    ∷ ("Redis" ∷ "Password" ∷ [], default "")
    ∷ ("Redis" ∷ "CacheDB" ∷ [], default "0")
    ∷ ("Redis" ∷ "QueueDB" ∷ [], default "1")
    ∷ ("Redis" ∷ "Timeout" ∷ [], default "5s")
    ∷ ("Security" ∷ "ApiKey" ∷ [], default "secret")
    ∷ ("Stats" ∷ "TimeWindowMinutes" ∷ [], default "60")
    ∷ ("Workers" ∷ "Webhook" ∷ "Stream" ∷ [], default "webhook_events")
    ∷ ("Workers" ∷ "Webhook" ∷ "Group" ∷ [], default "webhook_group")
    ∷ ("Workers" ∷ "Webhook" ∷ "Consumer" ∷ [], default "webhook_consumer")
    ∷ ("Workers" ∷ "Webhook" ∷ "URL" ∷ [], default "http://localhost:9090/webhook")
    ∷ ("Workers" ∷ "OutboxRelay" ∷ "Stream" ∷ [], default "webhook_events")
    ∷ []

-- What envconfig.Process does with a prefix, the tags and a value that it fills: an error, and the
-- value that it leaves.
abbrev pub EnvConfig : Type 0
EnvConfig = String → List (List String × Tag) → Config → Option GoError × Config

abbrev loaded : Option GoError × Config → GoError ⊎ Config
loaded (none, cfg) = inr cfg
loaded (some e, cfg) = inl e

-- `Load`; the zero value that is returned beside an error is not used.
unfoldable pub load : EnvConfig → GoError ⊎ Config
unfolding zero_config tags
load process = loaded (process "GEO" tags zero_config)
