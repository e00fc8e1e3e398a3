-- ===== src/Config.antt =====
-- internal/config/config_types.go: the settings that the relay's policies read.
pub mod Settings
pub mod Validate
use congee.Prelude.{
  Text, mem_int, ℤ, pos, leb_ℤ, List, Bool, true, false, Option, none, some, if◌then◌else◌,
}

pub record Nip77Section : Type 0 where
  pub max_records_per_query : ℤ
  pub session_idle_timeout_seconds : ℤ
  pub max_concurrent_sessions : ℤ
  pub max_concurrent_loads : ℤ
  pub backpressure_req_queue_depth : ℤ

pub record Config : Type 0 where
  pub enabled : List ℤ
  pub relay_url : Text
  pub send_challenge_on_connect : Bool
  pub created_at_skew_seconds : ℤ
  pub require_auth_subscribe_kinds : List ℤ
  pub require_auth_publish_kinds : List ℤ
  pub allowlisted_pubkeys : List Text
  pub reject_gift_wrap_when_disabled : Option Bool
  pub late_publication_max_past_seconds : ℤ
  pub strict_previous_same_h : Bool
  pub query_page_size : Option ℤ
  pub default_query_limit : Option ℤ
  pub max_subscription_id_length : ℤ
  pub nip77 : Nip77Section

-- `slices.Contains(cfg.NIPs.Enabled, n)`
unfoldable pub nip_enabled : ℤ → Config → Bool
nip_enabled n cfg = mem_int n cfg.enabled

abbrev true_unless : Option Bool → Bool
true_unless none = true
true_unless (some b) = b

unfoldable pub nip17_reject_gift_wrap_when_disabled : Config → Bool
nip17_reject_gift_wrap_when_disabled cfg =
    if mem_int (pos 17) cfg.enabled then false else true_unless cfg.reject_gift_wrap_when_disabled

unfoldable pub nip42_created_at_skew : Config → ℤ
nip42_created_at_skew cfg =
    if leb_ℤ cfg.created_at_skew_seconds (pos 0) then pos 600 else cfg.created_at_skew_seconds

unfoldable pub nip29_max_past_sec : Config → ℤ
nip29_max_past_sec cfg =
    if leb_ℤ cfg.late_publication_max_past_seconds (pos 0)
    then pos 86400
    else cfg.late_publication_max_past_seconds

unfoldable pub effective_req_default_query_limit : Option ℤ → ℤ
effective_req_default_query_limit none = pos 500
effective_req_default_query_limit (some p) = if leb_ℤ p (pos 0) then pos 0 else p

unfoldable pub effective_query_page_size : Option ℤ → ℤ
effective_query_page_size none = pos 100
effective_query_page_size (some p) = p

-- internal/config/nip77.go; the pointer to the settings is never nil.
abbrev effective_nip77_int : ℤ → ℤ → ℤ
effective_nip77_int v d = if leb_ℤ v (pos 0) then d else v

unfoldable pub nip77_max_concurrent_sessions : Config → ℤ
nip77_max_concurrent_sessions cfg = effective_nip77_int cfg.nip77.max_concurrent_sessions (pos 8)

unfoldable pub nip77_max_concurrent_loads : Config → ℤ
nip77_max_concurrent_loads cfg = effective_nip77_int cfg.nip77.max_concurrent_loads (pos 2)
