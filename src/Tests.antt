-- ===== src/Tests.antt =====
-- Concrete data, and the theorems applied to it. Texts are written as their bytes.
mod Delivery
mod Paging
mod Limits
mod Policies
mod Requests
mod Sync
mod Writer
mod Rows
mod Upstream
mod Settings
use congee.Prelude.{
  Text, bytes, Map, ℤ, pos, List, [], ◌∷◌, Bool, true, false, Option, none, some, Result, success,
}
use congee.Nostr.Event.{Event}
use congee.Nostr.Filter.{Filter}
use congee.Storage.{EventStore}
use congee.Config.{Config}
use congee.Relay.Outbox.{Outbox}
use congee.Relay.Subs.{SubEntry, Manager}

-- Two connections, a subscription, a key, a group.
abbrev pub c1 : Text
c1 = 1 ∷ []

abbrev pub c2 : Text
c2 = 2 ∷ []

abbrev pub s1 : Text
s1 = 3 ∷ []

abbrev pub key : Text
key = 4 ∷ []

abbrev pub relay_key : Text
relay_key = 5 ∷ []

abbrev pub every : Filter
every = record {
  ids = [];
  authors = [];
  kinds = [];
  since = none;
  until = none;
  limit = none;
  search = none;
  tag = [];
}

abbrev pub note : Event
note = record {
  id = 9 ∷ [];
  pub_key = key;
  created_at = pos 5;
  kind = pos 1;
  tags = [];
  content = [];
  sig = [];
}

-- The tag `["h", "g"]`, and an event of that group.
abbrev pub group_note : Event
group_note = record note { tags = (bytes "h" ∷ bytes "g" ∷ []) ∷ [] }

abbrev pub open_entry : SubEntry
open_entry = record {
  filters = every ∷ [];
  closed = false;
  opened_unix = pos 7;
  initial_sent = 0;
  initial_dropped = 0;
  broadcast_ok = 0;
  broadcast_drop = 0;
  eose_sent = 0;
  snapshot_done = true;
  pending_live = [];
  overflow = false;
}

abbrev pub manager : Map (Map SubEntry) → Manager
manager subs = record {
  subs = subs;
  senders = (c1, tt) ∷ [];
  max_subs_per_conn = pos 2;
  max_sub_id_len = pos 64;
  max_filters = pos 10;
}

abbrev pub outbox : Outbox
outbox = record {
  queue = [];
  capacity = 8;
  outbound_closed = false;
  ctx_done = false;
  prefer_done = false;
}

abbrev pub config : List ℤ → Config
config enabled = record {
  enabled = enabled;
  relay_url = 6 ∷ [];
  send_challenge_on_connect = false;
  created_at_skew_seconds = pos 0;
  require_auth_subscribe_kinds = [];
  require_auth_publish_kinds = pos 1 ∷ [];
  allowlisted_pubkeys = [];
  reject_gift_wrap_when_disabled = none;
  late_publication_max_past_seconds = pos 0;
  strict_previous_same_h = false;
  query_page_size = some (pos 2);
  default_query_limit = some (pos 100);
  max_subscription_id_length = pos 64;
  nip77 = record {
    max_records_per_query = pos 10;
    session_idle_timeout_seconds = pos 7;
    max_concurrent_sessions = pos 8;
    max_concurrent_loads = pos 2;
    backpressure_req_queue_depth = pos 64;
  };
}

-- The events of a group that is private and restricted, with `key` as its member.
abbrev pub metadata : Event
metadata = record note {
  kind = pos 39000;
  tags = (bytes "private" ∷ []) ∷ (bytes "restricted" ∷ []) ∷ [];
}

abbrev pub store : EventStore
store = record {
  query_events = λ f. success (note ∷ []);
  search_events = λ q f. success [];
  event_id_prefix_exists = λ p gid strict. success true;
  latest_group_metadata_39000 = λ rpk gid. success (some metadata);
  latest_group_admins_39001 = λ rpk gid. success none;
  is_group_member = λ rpk gid pk. success true;
}
