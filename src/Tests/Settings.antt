-- ===== src/Tests/Settings.antt =====
-- Settings that are accepted, and filters that a plugin hands back.
use congee.Prelude.{
  Text, bytes, ◌==◌, lookup, trim_space, pos, [], ◌∷◌, Option, none, some, ◌≡◌, refl, arith,
}
use congee.Nostr.Filter.{Filter}
use congee.Config.Settings.{Url, Upstream, Settings}
use congee.Config.Validate.{validate_config}
use congee.Config.Validate.Accepted.{IsAccepted, validate_config-IsAccepted}
use congee.Plugin.Convert.RoundTrip.{IsPlain, there_and_back, there_and_back_lem}
use congee.Tests.{key, every}

abbrev parse : Text → Option Url
parse s = some (record { scheme = bytes "wss"; host = s; path = [] })

abbrev upstream : Upstream
upstream = record {
  name = bytes "a";
  url = bytes "wss://a";
  filters = bytes "{}" ∷ [];
  interval_seconds = pos 60;
}

abbrev settings : Settings
settings = record {
  relay_port = pos 8080;
  instance_id = [];
  admin_port = pos 8081;
  database_type = bytes "sqlite";
  database_dsn = bytes "a.db";
  meta_dsn = [];
  logging_level = bytes "info";
  logging_format = bytes "json";
  audit_retention_days = pos 30;
  relay_bucket_retention_days = pos 0;
  events_per_minute_per_connection = pos 60;
  bytes_per_second_per_connection = pos 1000;
  reqs_per_minute_per_connection = pos 60;
  messages_per_minute_per_ip = pos 60;
  max_open = pos 100;
  max_open_per_ip = pos 0;
  idle_no_event_no_sub_seconds = pos 0;
  max_subscriptions_per_connection = pos 20;
  max_filters_per_req = pos 10;
  connections_per_minute_per_ip = pos 60;
  read_deadline_seconds = pos 60;
  write_deadline_seconds = pos 10;
  max_message_bytes = pos 1000;
  max_subscription_id_length = pos 64;
  nip11_name = bytes "congee";
  enabled = pos 1 ∷ pos 11 ∷ pos 42 ∷ pos 17 ∷ pos 77 ∷ [];
  relay_url = bytes "wss://b";
  created_at_skew_seconds = pos 600;
  late_publication_max_past_seconds = pos 0;
  max_records_per_query = pos 0;
  session_idle_timeout_seconds = pos 0;
  frame_size_limit_bytes = pos 0;
  max_concurrent_sessions = pos 0;
  max_concurrent_loads = pos 0;
  neg_open_per_minute_per_connection = pos 0;
  neg_msg_per_minute_per_connection = pos 0;
  backpressure_req_queue_depth = pos 0;
  upstream_message_timeout_seconds = pos 0;
  upstream_auth_wait_seconds = pos 0;
  upstreams = upstream ∷ [];
  intercept_timeout_ms = pos 0;
  intercept_log_size = none;
  items = [];
}

settings-accepted : (validate_config parse settings).1 ≡ none
unfolding validate_config
settings-accepted = refl

validate_config-IsAccepted_example : IsAccepted (validate_config parse settings).0
validate_config-IsAccepted_example = validate_config-IsAccepted parse settings settings-accepted

abbrev tagged : Filter
tagged = record every {
  kinds = pos 1 ∷ [];
  limit = some (pos 10);
  search = some (bytes "cats");
  tag = (bytes "#e", key ∷ []) ∷ (bytes "#p", []) ∷ [];
}

tagged-IsPlain : IsPlain tagged
unfolding lookup trim_space bytes ◌==◌
tagged-IsPlain = record {
  kinds = ((omega arith, omega arith), tt);
  limit = (omega arith, omega arith);
  search = (refl, refl);
  keys = ((b'e', refl), ((b'p', refl), tt));
  distinct = (refl, (refl, tt));
}

there_and_back_lem_example : there_and_back (tagged ∷ []) ≡ tagged ∷ []
there_and_back_lem_example = there_and_back_lem (tagged ∷ []) (tagged-IsPlain, tt)
