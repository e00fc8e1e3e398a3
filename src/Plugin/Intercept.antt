-- ===== src/Plugin/Intercept.antt =====
-- internal/plugin/manager.go, instance.go, hydrate.go: the call of the plugins on a REQ, and the
-- events that a plugin names. A plugin's process answers through `answer`; it is none where the call
-- fails, or has no deadline left.
use congee.Prelude.{
  Text, is_empty, mem_text, lookup, Map, List, [], ◌∷◌, Bool, not, ◌||◌, Option, none, some, Result,
  success, failure, ◌>>=◌, if◌then◌else◌, ℤ,
}
use congee.Nostr.Event.{Event}
use congee.Nostr.Filter.{Filter}
use congee.Storage.{EventStore}
use congee.Plugin.Match.{TrafficSubscription, match_intercept_req, match_on_stored_event}
use congee.Relay.Query.{collect}
pub mod Hydrate

-- `InterceptResult`: an action and what comes with it.
pub data InterceptResult : Type 0 where
  passthrough : InterceptResult
  reshape_req : List Filter → InterceptResult
  respond : List Text → List Filter → InterceptResult

pub record Instance : Type 0 where
  pub id : Text
  pub enabled : Bool
  pub is_ready : Bool
  pub subscriptions : List TrafficSubscription
  pub answer : Text → List Filter → Option InterceptResult

-- `doIntercept` without its log and counts.
unfoldable pub do_intercept : Instance → Text → List Filter → InterceptResult
do_intercept p sub_id filters =
    if not p.is_ready
    then passthrough
    else elim (p.answer sub_id filters) [ none ↦ passthrough | some res ↦ res ]

-- `InterceptREQ`: the plugins are in the order of the settings.
unfoldable pub intercept_req : List Instance → Text → List Filter → InterceptResult
unfolding match_intercept_req do_intercept
intercept_req [] sub_id filters = passthrough
intercept_req (p ∷ order) sub_id filters =
    let rest = intercept_req order sub_id filters in
    if not p.enabled || not (match_intercept_req p.subscriptions filters)
    then rest
    else elim (do_intercept p sub_id filters) [
      | passthrough ↦ rest
      | reshape_req fs ↦ reshape_req fs
      | respond event_ids fs ↦ respond event_ids fs
    ]

-- The first loop of `GetEventsByIDs`.
unfoldable pub unique_ids : List Text → List Text → List Text
unique_ids [] seen = []
unique_ids (id ∷ ids) seen =
    let skipped = unique_ids ids seen in
    let kept = id ∷ unique_ids ids (id ∷ seen) in
    if is_empty id then skipped else if mem_text id seen then skipped else kept

-- Its last loop.
unfoldable pub in_order : Map Event → List Text → List Text → List Event
in_order by_id [] got = []
in_order by_id (id ∷ ids) got = elim (lookup id by_id) [
  | none ↦ in_order by_id ids got
  | some ev ↦
      let skipped = in_order by_id ids got in
      let kept = ev ∷ in_order by_id ids (id ∷ got) in if mem_text id got then skipped else kept
]

abbrev ids_filter : List Text → Filter
ids_filter ids = record {
  ids = ids;
  authors = [];
  kinds = [];
  since = none;
  until = none;
  limit = none;
  search = none;
  tag = [];
}

unfoldable pub get_events_by_ids : EventStore → List Text → Result (List Event)
unfolding unique_ids in_order collect
get_events_by_ids store ids =
    if is_empty ids
    then success []
    else let unique = unique_ids ids [] in
      if is_empty unique then success [] else (do
        events ← store.query_events (ids_filter unique)
        success (in_order (collect events []) ids []))
