-- ===== src/Config/Settings.antt =====
-- internal/config/config_types.go: the settings that `Validate` looks at, and its errors. `Url` is what
-- net/url makes of a text.
use congee.Prelude.{ℕ, Text, ℤ, List, Option}

pub record Url : Type 0 where
  pub scheme : Text
  pub host : Text
  pub path : Text

pub record Upstream : Type 0 where
  pub name : Text
  pub url : Text
  pub filters : List Text
  pub interval_seconds : ℤ

pub record PluginItem : Type 0 where
  pub id : Text
  pub sha256 : Text

pub record Settings : Type 0 where
  pub relay_port : ℤ
  pub instance_id : Text
  pub admin_port : ℤ
  pub database_type : Text
  pub database_dsn : Text
  pub meta_dsn : Text
  pub logging_level : Text
  pub logging_format : Text
  pub audit_retention_days : ℤ
  pub relay_bucket_retention_days : ℤ
  pub events_per_minute_per_connection : ℤ
  pub bytes_per_second_per_connection : ℤ
  pub reqs_per_minute_per_connection : ℤ
  pub messages_per_minute_per_ip : ℤ
  pub max_open : ℤ
  pub max_open_per_ip : ℤ
  pub idle_no_event_no_sub_seconds : ℤ
  pub max_subscriptions_per_connection : ℤ
  pub max_filters_per_req : ℤ
  pub connections_per_minute_per_ip : ℤ
  pub read_deadline_seconds : ℤ
  pub write_deadline_seconds : ℤ
  pub max_message_bytes : ℤ
  pub max_subscription_id_length : ℤ
  pub nip11_name : Text
  pub enabled : List ℤ
  pub relay_url : Text
  pub created_at_skew_seconds : ℤ
  pub late_publication_max_past_seconds : ℤ
  pub max_records_per_query : ℤ
  pub session_idle_timeout_seconds : ℤ
  pub frame_size_limit_bytes : ℤ
  pub max_concurrent_sessions : ℤ
  pub max_concurrent_loads : ℤ
  pub neg_open_per_minute_per_connection : ℤ
  pub neg_msg_per_minute_per_connection : ℤ
  pub backpressure_req_queue_depth : ℤ
  pub upstream_message_timeout_seconds : ℤ
  pub upstream_auth_wait_seconds : ℤ
  pub upstreams : List Upstream
  pub intercept_timeout_ms : ℤ
  pub intercept_log_size : Option ℤ
  pub items : List PluginItem

pub data ConfigError : Type 0 where
  about : Text → ConfigError
  about_item : Text → ℕ → ConfigError
