-- ===== src/Relay/Nip01/Failures.antt =====
-- What a failing store leaves behind.
use congee.Prelude.{
  ℕ, ◌+◌, Text, bytes, lookup, is_some, any_of, ℤ, List, [], ◌∷◌, Bool, true, false, not, ◌&&◌,
  none, some, failure, ◌≡◌, refl, ap, arith,
}
use congee.Config.{Config, effective_query_page_size, effective_req_default_query_limit}
use congee.Nostr.Filter.{Filter, has_search}
use congee.Nostr.Wire.{closed}
use congee.Plugin.Intercept.{Instance, passthrough, intercept_req}
use congee.Relay.Outbox.{Outbox}
use congee.Relay.Outbox.Queue.{HasRoom, push, send-HasRoom}
use congee.Relay.Fanout.Reach.{State}
use congee.Relay.Subs.{SubEntry, add, new_entry, is_open}
use congee.Relay.Subs.Open.{entry}
use congee.Relay.Auth.{subscribe_auth_required, nip42_has_any_auth}
use congee.Relay.Query.{new_req_query_state, fetch_req_page}
use congee.Relay.Reader.{Round}
use congee.Relay.Reader.Ending.{Ready}
use congee.Relay.Nip01.{World, reply, note_count, error_text}
use congee.Relay.Nip01.Req.{first_page, open_req, handle_req}
use congee.Relay.Nip01.Snapshot.{opened-Ready}

Ready-is_open :
    (c s : Text) (n : ℕ) (e : SubEntry) (box : Outbox) (x : State)
    → Ready c s n e box x
    → e.closed ≡ false
    → is_open c s x.manager ≡ true
unfolding is_open
Ready-is_open c s n e box x r live = rw (is_open, r.sender, r.found, live) refl

-- Where the store fails on the first page of a REQ that is not refused and that no plugin takes, of a
-- connection with a sender and with room for one message, the client is sent CLOSED alone, but the subscription stays registered and open, with its snapshot not done.
pub handle_req-query_error :
    (cfg : Config) (plugins : List Instance) (fresh : Text) (now : ℤ) (search_enabled : Bool)
    (r : Round) (rounds : List Round) (s : Text) (filters : List Filter) (w : World)
    (message : Text) (box : Outbox)
    → let page_size = effective_query_page_size cfg.query_page_size in
      let default_limit = effective_req_default_query_limit cfg.default_query_limit in
      let st = new_req_query_state filters default_limit search_enabled in
      (subscribe_auth_required cfg filters && not (nip42_has_any_auth w.conn.auth)) ≡ false
      → intercept_req plugins s filters ≡ passthrough
      → (not search_enabled && any_of has_search filters) ≡ false
      → (add now w.conn.id s filters w.state.manager).1 ≡ none
      → is_some (lookup w.conn.id w.state.manager.senders) ≡ true
      → lookup w.conn.id w.state.net ≡ some box
      → HasRoom 1 box
      → fetch_req_page r.store page_size st ≡ failure message
      → (w' : World) × (handle_req cfg plugins fresh now search_enabled r rounds s filters w
          ≡ some (w', none))
        × (lookup w.conn.id w'.state.net ≡ some (push box (closed s (bytes "internal error") ∷ [])))
        × (is_open w.conn.id s w'.state.manager ≡ true)
        × (entry w.conn.id s w'.state.manager ≡ some (new_entry filters now))
unfolding handle_req open_req note_count first_page reply
handle_req-query_error cfg plugins fresh now search_enabled r rounds s filters w message box authed
      passed plain added sender p room q =
    let ready = opened-Ready now s filters 1 w box added sender p room in
    let (a, b) =
      send-HasRoom 0 w.state.net w.conn.id (closed s (bytes "internal error")) box p
        (HasRoom-one room) in
    (
      (reply (closed s (bytes "internal error")) (note_count now opened)).0,
      rw (authed, passed, plain, added, q)
          (ap
            (λ o.
              some (
                (reply (closed s (bytes "internal error")) (note_count now opened)).0,
                error_text o,
              ))
            b),
      a,
      Ready-is_open w.conn.id s 1 (new_entry filters now) box _ ready refl,
      ready.found,
    )
  where
    opened : World
    opened = record w {
      state = record w.state { manager = (add now w.conn.id s filters w.state.manager).0 };
    }

    HasRoom-one : HasRoom 1 box → HasRoom (0 + 1) box
    HasRoom-one h = record {
      is_open = h.is_open;
      running = h.running;
      room = omega (arith, h.room);
    }
