-- ===== src/Config/Validate.antt =====
-- internal/config/config.go, nip77.go, plugins.go: `Validate`. An error names the setting that it is
-- about, in place of the message's text. The parser of net/url is an argument.
pub mod Accepted
use congee.Prelude.{
  ℕ, suc, Text, bytes, ◌==◌, mem_text, mem_int, any_of, has_prefix, trim_prefix, to_lower,
  trim_space, is_hex, is_empty, eqb, ltb, length, ℤ, pos, ltb_ℤ, leb_ℤ, List, [], ◌∷◌, Bool, true,
  false, not, ◌&&◌, ◌||◌, Option, none, some, Result, success, failure, if◌then◌else◌,
}
use congee.Config.Settings.{Url, Upstream, PluginItem, Settings, ConfigError, about, about_item}

-- Tests and what they complain of, in order: the first that holds ends the validation.
unfoldable pub first_error : List (Bool × ConfigError) → Option ConfigError
first_error [] = none
first_error ((bad, e) ∷ checks) = if bad then some e else first_error checks

abbrev pub check : Text → Bool → Bool × ConfigError
check field bad = (bad, about field)

abbrev pub is_port : ℤ → Bool
is_port p = not (ltb_ℤ p (pos 1) || ltb_ℤ (pos 65535) p)

abbrev pub not_positive : ℤ → Bool
not_positive a = leb_ℤ a (pos 0)

abbrev pub below_zero : ℤ → Bool
below_zero a = ltb_ℤ a (pos 0)

-- `KnownNIPs`, and those of them that are mandatory.
abbrev pub known_nips : List ℤ
known_nips = pos 1 ∷ pos 2 ∷ pos 42 ∷ pos 11 ∷ pos 50 ∷ pos 29 ∷ pos 17 ∷ pos 77 ∷ []

-- `strings.ContainsAny(s, "\r\n\x00")`
abbrev breaks_line : Text → Bool
breaks_line = any_of (λ c. eqb c 13 || eqb c 10 || eqb c 0)

unfoldable pub bad_instance_id : Text → Bool
unfolding trim_space
bad_instance_id s =
    let t = trim_space s in if is_empty t then false else ltb 256 (length t) || breaks_line t

-- The text up to the first `?`.
unfoldable pub before_query : Text → Text
before_query [] = []
before_query (c ∷ s) = let rest = before_query s in if eqb c b'?' then [] else c ∷ rest

unfoldable pub bad_meta_dsn : Text → Bool
unfolding trim_space to_lower has_prefix trim_prefix before_query bytes
bad_meta_dsn s =
    let t = trim_space s in
    if is_empty t
    then false
    else if has_prefix (to_lower t) (bytes "postgres://")
        || has_prefix (to_lower t) (bytes "postgresql://")
    then true
    else is_empty (
        trim_space (
          if has_prefix t (bytes "file:") then before_query (trim_prefix t (bytes "file:")) else t))

abbrev known_database : Text → Bool
known_database s = mem_text s ([] ∷ bytes "sqlite" ∷ bytes "postgres" ∷ bytes "turso" ∷ [])

abbrev known_level : Text → Bool
known_level s = mem_text s (bytes "debug" ∷ bytes "info" ∷ bytes "warn" ∷ bytes "error" ∷ [])

abbrev known_format : Text → Bool
known_format s = mem_text s (bytes "json" ∷ bytes "console" ∷ [])

abbrev is_ws : Text → Bool
is_ws s = s == bytes "ws" || s == bytes "wss"

module _ (parse : Text → Option Url) where
  -- `NormalizeNIP42RelayURL` refuses the URL.
  abbrev no_relay_url : Option Url → Bool
  no_relay_url none = true
  no_relay_url (some u) = is_empty u.host || not (is_ws (to_lower u.scheme))

  abbrev no_upstream_url : Option Url → Bool
  no_upstream_url none = true
  no_upstream_url (some u) = not (is_ws u.scheme)

  -- The loop over the upstreams, with the names that were seen.
  unfoldable pub check_upstreams : ℕ → List Text → List Upstream → Option ConfigError
  unfolding trim_space bytes ◌==◌
  check_upstreams i names [] = none
  check_upstreams i names (u ∷ us) =
      let name = trim_space u.name in
      let url = trim_space u.url in
      let rest = check_upstreams (suc i) (name ∷ names) us in
      if is_empty name
      then some (about_item (bytes "nip77.upstreams.name") i)
      else if mem_text name names
      then some (about_item (bytes "nip77.upstreams") i)
      else if is_empty url
      then some (about_item (bytes "nip77.upstreams.url") i)
      else if no_upstream_url (parse url)
      then some (about_item (bytes "nip77.upstreams.url") i)
      else if is_empty u.filters
      then some (about_item (bytes "nip77.upstreams.filters") i)
      else if ltb_ℤ (pos 0) u.interval_seconds && ltb_ℤ u.interval_seconds (pos 60)
      then some (about_item (bytes "nip77.upstreams.interval_seconds") i)
      else rest

  abbrev first_of {ℓ} : {A : Type ℓ} → Option A → Option A → Option A
  first_of none o = o
  first_of (some a) o = some a

  unfoldable pub validate_nip77 : Settings → Option ConfigError
  unfolding first_error check_upstreams bytes
  validate_nip77 c =
      if not (mem_int (pos 77) c.enabled)
      then none
      else first_of
          (first_error (
            check (bytes "nip77.max_records_per_query") (below_zero c.max_records_per_query)
            ∷ check (bytes "nip77.session_idle_timeout_seconds")
                (below_zero c.session_idle_timeout_seconds)
            ∷ check (bytes "nip77.frame_size_limit_bytes") (below_zero c.frame_size_limit_bytes)
            ∷ check (bytes "nip77.max_concurrent_sessions") (below_zero c.max_concurrent_sessions)
            ∷ check (bytes "nip77.max_concurrent_loads") (below_zero c.max_concurrent_loads)
            ∷ check (bytes "nip77.neg_open_per_minute_per_connection")
                (below_zero c.neg_open_per_minute_per_connection)
            ∷ check (bytes "nip77.neg_msg_per_minute_per_connection")
                (below_zero c.neg_msg_per_minute_per_connection)
            ∷ check (bytes "nip77.backpressure_req_queue_depth")
                (below_zero c.backpressure_req_queue_depth)
            ∷ check (bytes "nip77.upstream_message_timeout_seconds")
                (below_zero c.upstream_message_timeout_seconds)
            ∷ check (bytes "nip77.upstream_auth_wait_seconds")
                (below_zero c.upstream_auth_wait_seconds)
            ∷ []))
          (check_upstreams 0 [] c.upstreams)

  -- The loop over the plugins, with the ids that were seen.
  unfoldable pub check_items : ℕ → List Text → List PluginItem → Option ConfigError
  unfolding trim_space is_hex bytes ◌==◌
  check_items i seen [] = none
  check_items i seen (it ∷ items) =
      let id = trim_space it.id in
      let sum = trim_space it.sha256 in
      let rest = check_items (suc i) (id ∷ seen) items in
      if is_empty id
      then some (about_item (bytes "plugins.items.id") i)
      else if mem_text id seen
      then some (about_item (bytes "plugins.items.id") i)
      else if not (is_empty it.sha256) && not (is_hex sum && eqb (length sum) 64)
      then some (about_item (bytes "plugins.items.sha256") i)
      else rest

  abbrev bad_log_size : Option ℤ → Bool
  bad_log_size none = false
  bad_log_size (some n) = ltb_ℤ n (pos 0) || ltb_ℤ (pos 10000) n

  unfoldable pub validate_plugins : Settings → Option ConfigError
  unfolding first_error check_items bytes
  validate_plugins c =
      first_of
        (first_error (
          check (bytes "plugins.intercept_timeout_ms") (below_zero c.intercept_timeout_ms)
          ∷ check (bytes "plugins.intercept_log_size") (bad_log_size c.intercept_log_size)
          ∷ []))
        (check_items 0 [] c.items)

  -- What is tested before the retention of the metrics is put right.
  unfoldable pub early_checks : Settings → List (Bool × ConfigError)
  unfolding bad_instance_id bad_meta_dsn bytes
  early_checks c =
      check (bytes "relay.port") (not (is_port c.relay_port))
      ∷ check (bytes "relay.instance_id") (bad_instance_id c.instance_id)
      ∷ check (bytes "admin.port") (not (is_port c.admin_port))
      ∷ check (bytes "database.type") (not (known_database c.database_type))
      ∷ check (bytes "database.dsn") (is_empty c.database_dsn)
      ∷ check (bytes "database.meta_dsn") (bad_meta_dsn c.meta_dsn)
      ∷ check (bytes "logging.level") (not (known_level c.logging_level))
      ∷ check (bytes "logging.format") (not (known_format c.logging_format))
      ∷ check (bytes "audit.retention_days") (not_positive c.audit_retention_days)
      ∷ []

  unfoldable pub limit_checks : Settings → List (Bool × ConfigError)
  unfolding bytes
  limit_checks c =
      check (bytes "metrics.relay_bucket_retention_days")
        (ltb_ℤ (pos 3650) c.relay_bucket_retention_days)
      ∷ check (bytes "rate_limits.events_per_minute_per_connection")
          (not_positive c.events_per_minute_per_connection)
      ∷ check (bytes "rate_limits.bytes_per_second_per_connection")
          (not_positive c.bytes_per_second_per_connection)
      ∷ check (bytes "rate_limits.reqs_per_minute_per_connection")
          (not_positive c.reqs_per_minute_per_connection)
      ∷ check (bytes "rate_limits.messages_per_minute_per_ip")
          (not_positive c.messages_per_minute_per_ip)
      ∷ check (bytes "connection_limits.max_open") (not_positive c.max_open)
      ∷ check (bytes "connection_limits.max_open_per_ip") (below_zero c.max_open_per_ip)
      ∷ check (bytes "connection_limits.idle_no_event_no_sub_seconds")
          (below_zero c.idle_no_event_no_sub_seconds)
      ∷ check (bytes "connection_limits.max_subscriptions_per_connection")
          (not_positive c.max_subscriptions_per_connection)
      ∷ check (bytes "connection_limits.max_filters_per_req") (not_positive c.max_filters_per_req)
      ∷ check (bytes "connection_limits.connections_per_minute_per_ip")
          (not_positive c.connections_per_minute_per_ip)
      ∷ check (bytes "connection_limits.read_deadline_seconds")
          (not_positive c.read_deadline_seconds)
      ∷ check (bytes "connection_limits.write_deadline_seconds")
          (not_positive c.write_deadline_seconds)
      ∷ check (bytes "websocket.max_message_bytes") (not_positive c.max_message_bytes)
      ∷ check (bytes "max_subscription_id_length") (not_positive c.max_subscription_id_length)
      ∷ []

  -- A NIP 42 or 29 that is off has no settings to test. The mandatory NIPs are ranged over in any order.
  unfoldable pub nip_checks : Settings → List (Bool × ConfigError)
  unfolding trim_space bytes
  nip_checks c =
      let has = λ (n : ℕ). mem_int (pos n) c.enabled in
      check (bytes "nip11.name") (is_empty c.nip11_name)
      ∷ check (bytes "nips.enabled") (is_empty c.enabled)
      ∷ check (bytes "nips.enabled") (any_of (λ n. not (mem_int n known_nips)) c.enabled)
      ∷ check (bytes "nips.enabled") (not (has 1))
      ∷ check (bytes "nips.enabled") (not (has 11))
      ∷ check (bytes "nip42.relay_url") (has 42 && is_empty (trim_space c.relay_url))
      ∷ check (bytes "nip42.relay_url") (has 42 && no_relay_url (parse (trim_space c.relay_url)))
      ∷ check (bytes "nip42.created_at_skew_seconds") (below_zero c.created_at_skew_seconds)
      ∷ check (bytes "nip29.late_publication_max_past_seconds")
          (has 29 && below_zero c.late_publication_max_past_seconds)
      ∷ check (bytes "nips.enabled") (has 17 && not (has 42))
      ∷ []

  unfoldable pub with_retention : Settings → Settings
  with_retention c =
      if not_positive c.relay_bucket_retention_days
      then record c { relay_bucket_retention_days = pos 30 }
      else c

  unfoldable pub later_checks : Settings → Option ConfigError
  unfolding first_error limit_checks nip_checks validate_nip77 validate_plugins
  later_checks c =
      first_of (first_error (limit_checks c))
        (first_of (first_error (nip_checks c)) (first_of (validate_nip77 c) (validate_plugins c)))

  unfoldable pub after_early : Settings → Option ConfigError → Settings × Option ConfigError
  unfolding with_retention later_checks
  after_early c (some e) = (c, some e)
  after_early c none = (with_retention c, later_checks (with_retention c))

  -- The settings as `Validate` leaves them, and its error.
  unfoldable pub validate_config : Settings → Settings × Option ConfigError
  unfolding first_error early_checks after_early
  validate_config c = after_early c (first_error (early_checks c))
