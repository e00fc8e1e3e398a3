-- ===== src/Relay/Fanout.antt =====
-- internal/relay/subscription.go: `Broadcast` and `FinishSnapshot`, which write to the outboxes.
pub mod Delivery
pub mod Buffer
pub mod Finish
pub mod Reach
use congee.Prelude.{
  ℕ, Text, leb, length, is_some, Map, lookup, insert, List, [], ◌∷◌, ◌++◌, Bool, true, false, not,
  Option, none, some, if◌then◌else◌,
}
use congee.Nostr.Event.{Event}
use congee.Nostr.Filter.{Filter, filters_match}
use congee.Nostr.Wire.{RelayMessage, event}
use congee.Relay.Outbox.{Net, SendResult, send, is_sent}
use congee.Relay.Subs.{SubEntry, Manager, subs_of, update_entry, add64, pending_live_cap}

abbrev note_broadcast : Bool → SubEntry → SubEntry
note_broadcast true e = record e { broadcast_ok = add64 e.broadcast_ok }
note_broadcast false e = record e { broadcast_drop = add64 e.broadcast_drop }

-- The body of the inner loop: one subscription of a connection that has a sender and may see `ev`.
unfoldable pub deliver : Text → Text → Event → Net → SubEntry → Net × SubEntry
deliver conn_id sub_id ev net e =
    if e.closed
    then (net, e)
    else if not (filters_match e.filters ev)
    then (net, e)
    else if not e.snapshot_done
    then (
      net,
      if leb pending_live_cap (length e.pending_live)
          then record e { overflow = true }
          else record e { pending_live = e.pending_live ++ event sub_id ev ∷ [] },
    )
    else let (net', r) = send net conn_id (event sub_id ev) in (net', note_broadcast (is_sent r) e)

unfoldable pub deliver_all : Text → Event → Net → Map SubEntry → Net × Map SubEntry
unfolding deliver
deliver_all conn_id ev net [] = (net, [])
deliver_all conn_id ev net ((sub_id, e) ∷ cmap) =
    let (net', e') = deliver conn_id sub_id ev net e in
    let (net'', cmap') = deliver_all conn_id ev net' cmap in (net'', (sub_id, e') ∷ cmap')

-- The tests of the outer loop: a sender is registered, and the event is visible.
unfoldable pub reachable : Map (Unit {0}) → (Text → Event → Bool) → Text → Event → Bool
reachable senders visible conn_id ev =
    if not (is_some (lookup conn_id senders)) then false else visible conn_id ev

-- One turn of the outer loop.
unfoldable pub broadcast_conn :
    Map (Unit {0}) → (Text → Event → Bool) → Event → Net → Text → Map SubEntry → Net × Map SubEntry
unfolding deliver_all reachable
broadcast_conn senders visible ev net conn_id cmap =
    if reachable senders visible conn_id ev then deliver_all conn_id ev net cmap else (net, cmap)

unfoldable pub broadcast_loop :
    Map (Unit {0})
    → (Text → Event → Bool)
    → Event
    → Net
    → Map (Map SubEntry)
    → Net × Map (Map SubEntry)
unfolding broadcast_conn
broadcast_loop senders visible ev net [] = (net, [])
broadcast_loop senders visible ev net ((conn_id, cmap) ∷ subs) =
    let (net', cmap') = broadcast_conn senders visible ev net conn_id cmap in
    let (net'', subs') = broadcast_loop senders visible ev net' subs in
    (net'', (conn_id, cmap') ∷ subs')

unfoldable pub broadcast : (Text → Event → Bool) → Event → Net → Manager → Net × Manager
unfolding broadcast_loop
broadcast visible ev net m =
    let (net', subs') = broadcast_loop m.senders visible ev net m.subs in
    (net', record m { subs = subs' })

-- The locked part of `FinishSnapshot`: the buffered events are taken, to be sent after it.
unfoldable pub take_pending : Text → Text → Manager → Manager × List RelayMessage
unfolding subs_of update_entry
take_pending conn_id sub_id m = elim (lookup sub_id (subs_of conn_id m)) [
  | none ↦ (m, [])
  | some e ↦ (
    update_entry conn_id sub_id (λ e. record e { snapshot_done = true; pending_live = [] }) m,
    if is_some (lookup conn_id m.senders) then e.pending_live else [],
  )
]

unfoldable pub flush : Text → Text → List RelayMessage → Net → Manager → Net × Manager
unfolding update_entry
flush conn_id sub_id [] net m = (net, m)
flush conn_id sub_id (b ∷ pending) net m =
    let (net', r) = send net conn_id b in
    flush conn_id sub_id pending net' (update_entry conn_id sub_id (note_broadcast (is_sent r)) m)

unfoldable pub finish_snapshot : Text → Text → Net → Manager → Net × Manager
unfolding take_pending flush
finish_snapshot conn_id sub_id net m =
    let (m', pending) = take_pending conn_id sub_id m in flush conn_id sub_id pending net m'
