-- ===== src/Storage.antt =====
-- internal/storage/store.go: the part of the store's interface that the relay reads. A value of
-- the record is the store at one moment; a context and its deadline show only in the errors.
pub mod Writer
pub mod Events
pub mod Query
use congee.Prelude.{Text, Result, List, Bool, Option}
use congee.Nostr.Event.{Event}
use congee.Nostr.Filter.{Filter}

pub record EventStore : Type 0 where
  pub query_events : Filter → Result (List Event)
  pub search_events : Text → Filter → Result (List Event)
  pub event_id_prefix_exists : Text → Text → Bool → Result Bool
  pub latest_group_metadata_39000 : Text → Text → Result (Option Event)
  pub latest_group_admins_39001 : Text → Text → Result (Option Event)
  pub is_group_member : Text → Text → Text → Result Bool
