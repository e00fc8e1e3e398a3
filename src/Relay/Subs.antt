-- ===== src/Relay/Subs.antt =====
-- internal/relay/subscription.go: the subscriptions of each connection and the fan-out of events.
-- The locks make each method, or each locked part of one, a step of its own.
pub mod Invariant
pub mod Open
use congee.Prelude.{
  ℕ, ◌+◌, ◌%◌, ◌^◌, Text, ◌==◌, leb, length, is_some, Map, lookup, insert, delete, map, ℤ, pos,
  ltb_ℤ, leb_ℤ, eqb_ℤ, List, [], ◌∷◌, ◌++◌, Bool, true, false, not, ◌&&◌, Option, none, some,
  if◌then◌else◌,
}
use congee.Nostr.Event.{Event}
use congee.Nostr.Filter.{Filter, filters_match}
use congee.Nostr.Wire.{RelayMessage, event}
use congee.Relay.Outbox.{Net, send, is_sent}

abbrev pub pending_live_cap : ℕ
pending_live_cap = 256

pub record SubEntry : Type 0 where
  pub filters : List Filter
  pub closed : Bool
  pub opened_unix : ℤ
  pub initial_sent : ℕ
  pub initial_dropped : ℕ
  pub broadcast_ok : ℕ
  pub broadcast_drop : ℕ
  pub eose_sent : ℕ
  pub snapshot_done : Bool
  pub pending_live : List RelayMessage
  pub overflow : Bool

-- `senders` holds the ids whose sender is registered; a sender writes to the connection's outbox.
pub record Manager : Type 0 where
  pub subs : Map (Map SubEntry)
  pub senders : Map (Unit {0})
  pub max_subs_per_conn : ℤ
  pub max_sub_id_len : ℤ
  pub max_filters : ℤ

pub data AddError : Type 0 where
  subscription_id_too_long too_many_subscriptions too_many_filters : AddError

-- `atomic.Uint64.Add(1)` and `atomic.Uint32.Add(1)`
abbrev pub add64 : ℕ → ℕ
add64 n = (n + 1) % 2 ^ 64

abbrev pub add32 : ℕ → ℕ
add32 n = (n + 1) % 2 ^ 32

unfoldable pub register_sender : Text → Manager → Manager
register_sender conn_id m = record m { senders = insert conn_id tt m.senders }

-- `m.subs[connID]`, where a missing map reads as an empty one.
abbrev pub entries_or_empty : Option (Map SubEntry) → Map SubEntry
entries_or_empty none = []
entries_or_empty (some cmap) = cmap

unfoldable pub subs_of : Text → Manager → Map SubEntry
subs_of conn_id m = entries_or_empty (lookup conn_id m.subs)

unfoldable pub unregister_sender : Text → Manager → Manager × List Text
unfolding subs_of
unregister_sender conn_id m = (
  record m { senders = delete conn_id m.senders; subs = delete conn_id m.subs },
  map (λ e. e.0) (subs_of conn_id m),
)

abbrev pub new_entry : List Filter → ℤ → SubEntry
new_entry filters now = record {
  filters = filters;
  closed = false;
  opened_unix = now;
  initial_sent = 0;
  initial_dropped = 0;
  broadcast_ok = 0;
  broadcast_drop = 0;
  eose_sent = 0;
  snapshot_done = false;
  pending_live = [];
  overflow = false;
}

-- The manager comes back on an error too: a missing map of the connection is made before the last
-- test.
unfoldable pub add : ℤ → Text → Text → List Filter → Manager → Manager × Option AddError
unfolding subs_of
add now conn_id sub_id filters m =
    if ltb_ℤ m.max_sub_id_len (pos (length sub_id))
    then (m, some subscription_id_too_long)
    else if ltb_ℤ m.max_filters (pos (length filters))
    then (m, some too_many_filters)
    else let cmap = subs_of conn_id m in
      if not (is_some (lookup sub_id cmap)) && leb_ℤ m.max_subs_per_conn (pos (length cmap))
      then (record m { subs = insert conn_id cmap m.subs }, some too_many_subscriptions)
      else (
        record m { subs = insert conn_id (insert sub_id (new_entry filters now) cmap) m.subs },
        none,
      )

-- Writes an entry of a connection through `f`, where both are there.
unfoldable pub update_entry : Text → Text → (SubEntry → SubEntry) → Manager → Manager
update_entry conn_id sub_id f m = elim (lookup conn_id m.subs) [
  | none ↦ m
  | some cmap ↦ elim (lookup sub_id cmap) [
    | none ↦ m
    | some e ↦ record m { subs = insert conn_id (insert sub_id (f e) cmap) m.subs }
  ]
]

-- The two locked parts of `Remove`. Other steps may come between them.
unfoldable pub remove_mark : Text → Text → Manager → Manager
unfolding update_entry
remove_mark conn_id sub_id = update_entry conn_id sub_id (λ e. record e { closed = true })

abbrev store_or_drop : Text → Map SubEntry → Map (Map SubEntry) → Map (Map SubEntry)
store_or_drop conn_id [] subs = delete conn_id subs
store_or_drop conn_id (x ∷ cmap) subs = insert conn_id (x ∷ cmap) subs

unfoldable pub remove_delete : Text → Text → Manager → Manager
remove_delete conn_id sub_id m = elim (lookup conn_id m.subs) [
  | none ↦ m
  | some cmap ↦ record m { subs = store_or_drop conn_id (delete sub_id cmap) m.subs }
]

unfoldable pub remove : Text → Text → Manager → Manager
unfolding remove_mark remove_delete
remove conn_id sub_id m = remove_delete conn_id sub_id (remove_mark conn_id sub_id m)

unfoldable pub count_subs : Map (Map SubEntry) → ℕ
count_subs [] = 0
count_subs ((_, cmap) ∷ subs) = length cmap + count_subs subs

unfoldable pub total_subscriptions : Manager → ℕ
unfolding count_subs
total_subscriptions m = count_subs m.subs

unfoldable pub sub_count : Text → Manager → ℕ
unfolding subs_of
sub_count conn_id m = length (subs_of conn_id m)

-- The stamp of an active subscription.
unfoldable pub sub_opened_unix : Text → Text → Manager → Option ℤ
unfolding subs_of
sub_opened_unix conn_id sub_id m = elim (lookup sub_id (subs_of conn_id m)) [
  | none ↦ none
  | some e ↦ if e.closed then none else some e.opened_unix
]

unfoldable pub is_same_snapshot : Text → Text → ℤ → Manager → Bool
unfolding subs_of
is_same_snapshot conn_id sub_id opened_unix m =
    if not (is_some (lookup conn_id m.senders))
    then false
    else elim (lookup sub_id (subs_of conn_id m)) [
      | none ↦ false
      | some e ↦ if e.closed then false else eqb_ℤ e.opened_unix opened_unix
    ]

unfoldable pub is_open : Text → Text → Manager → Bool
unfolding subs_of
is_open conn_id sub_id m =
    if not (is_some (lookup conn_id m.senders))
    then false
    else elim (lookup sub_id (subs_of conn_id m)) [ none ↦ false | some e ↦ not e.closed ]

unfoldable pub note_sub_initial_delivery : Text → Text → Bool → Manager → Manager
unfolding update_entry
note_sub_initial_delivery conn_id sub_id ok = update_entry conn_id sub_id λ e.
    if ok
    then record e { initial_sent = add64 e.initial_sent }
    else record e { initial_dropped = add64 e.initial_dropped }

unfoldable pub note_sub_eose : Text → Text → Manager → Manager
unfolding update_entry
note_sub_eose conn_id sub_id =
    update_entry conn_id sub_id (λ e. record e { eose_sent = add32 e.eose_sent })
