-- ===== src/Tests/Requests.antt =====
-- A REQ, a CLOSE and an EVENT of one connection.
use mathlib.Core.Option
use congee.Prelude.{
  ℕ, ◌+◌, ◌==◌, Text, bytes, length, lookup, insert, is_some, map, pos, ℤ, ◌≤ℤ◌, ◌≤◌, List, [], ◌∷◌,
  ◌++◌, ◌⊎◌, true, false, Option, none, some, Result, success, failure, ◌≡◌, refl, inl, inr, arith,
  if◌then◌else◌, ◌<◌, ◌^◌,
}
use congee.Config.{Config, effective_query_page_size, effective_req_default_query_limit}
use congee.Nostr.Event.{Event}
use congee.Nostr.Filter.{Filter}
use congee.Nostr.Wire.{RelayMessage, event, eose, closed}
use congee.Plugin.Intercept.{passthrough}
use congee.Storage.{EventStore}
use congee.Relay.Outbox.Queue.{push}
use congee.Relay.Subs.{Manager, new_entry, is_open, add}
use congee.Relay.Subs.Open.{entry}
use congee.Relay.Fanout.Reach.{State}
use congee.Relay.Auth.{AuthState}
use congee.Relay.Query.{ReqQueryState, new_req_query_state, fetch_req_page, last_created_at}
use congee.Relay.Reader.{Round, ReqPageJob, worker, run_job, drain_remaining_pages, map_end}
use congee.Relay.Reader.Ending.{Ended, shown}
use congee.Relay.Query.Progress.{Dated, all_left}
use congee.Relay.Reader.Termination.{drain_remaining_pages-ends}
use congee.Relay.Reader.Drains.{drain_remaining_pages-query_error}
use congee.Relay.Nip01.{World, handle_close, handle_event, validate}
use congee.Relay.Nip01.Req.{handle_req}
use congee.Relay.Nip01.Queued.{handle_req-worker}
use congee.Relay.Nip01.Failures.{handle_req-query_error}
use congee.Relay.Nip01.Refused.{IsRefused, needs_auth, handle_req-refused}
use congee.Relay.Nip01.Replied.{IsChallenge, Sent}
use congee.Relay.Nip01.Publish.{nip01_hooks, handle_event-published}
use congee.Relay.Fanout.Delivery.{due_messages}
use congee.Relay.Outbox.{Outbox}
use congee.Relay.Nip01.Answers.{handle_close_lem, handle_event-refused}
use congee.Tests.{c1, c2, s1, every, note, open_entry, manager, outbox, config, store}

abbrev settings : Config
settings = config []

abbrev pub asking : World
asking = record {
  state = record { net = (c1, outbox) ∷ []; manager = manager [] };
  conn = record {
    id = c1;
    auth = record { nip42_challenge = []; nip42_auth_sent = false; nip42_pubkeys = [] };
    idle = record { started_unix = pos 1; idle_since_unix = pos 1; client_event_total = 0 };
  };
  jobs = [];
}

-- Two events on the first page, which is full, and none on the second.
abbrev newer_note : Event
newer_note = record note { id = 8 ∷ []; created_at = pos 6 }

abbrev two_pages : EventStore
two_pages = record store {
  query_events =
      λ f. elim f.until [ none ↦ success (newer_note ∷ note ∷ []) | some u ↦ success [] ];
}

abbrev round : Round
round = record { store = two_pages; visible = λ c e. true }

abbrev cursor : ReqQueryState
cursor = new_req_query_state (every ∷ []) (pos 100) false

handle_req-worker_example :
    (w' : World) × (y : State) × (Option.map
        (λ (o : World × Option Text). o.0)
        (handle_req settings [] [] (pos 7) false round (round ∷ []) s1 (every ∷ []) asking)
      ≡ some w')
    × (worker (round ∷ []) w'.jobs w'.state ≡ some y)
    × Ended c1 s1
        (event s1 newer_note ∷ event s1 note ∷ eose s1 ∷ [])
        (new_entry (every ∷ []) (pos 7))
        outbox
        y
unfolding add congee.Relay.Auth.subscribe_auth_required congee.Plugin.Intercept.intercept_req
    congee.Prelude.trim_space lookup ◌==◌ shown fetch_req_page effective_query_page_size
    new_req_query_state effective_req_default_query_limit congee.Prelude.◌-ℤ◌ insert
handle_req-worker_example =
    handle_req-worker settings [] [] (pos 7) false round (round ∷ []) s1 (every ∷ []) asking
      (newer_note ∷ note ∷ []) outbox refl refl refl refl refl refl
      (record { is_open = refl; running = refl; room = omega arith }) refl refl

-- A store that fails.
abbrev broken : Round
broken = record {
  store = record store { query_events = λ f. failure (bytes "down") };
  visible = λ c e. true;
}

-- A REQ that searches, of a relay that does not.
abbrev searching : List Filter
searching = record every { search = some (bytes "x") } ∷ []

searching-IsRefused :
    IsRefused settings passthrough
      (pos 7)
      false
      s1
      searching
      asking
      (bytes "search filter is not supported (enable NIP-50 in nips.enabled and restart)")
unfolding congee.Relay.Auth.subscribe_auth_required congee.Prelude.trim_space ◌==◌ bytes
    congee.Nostr.Filter.has_search
searching-IsRefused = inr (inl (refl, refl, refl))

handle_req-refused_example :
    (w' : World) × (bs : List RelayMessage) × (handle_req settings [] []
        (pos 7)
        false
        broken
        []
        s1
        searching
        asking
      ≡ some (w', none))
    × Sent asking w' outbox
        (bs
          ++ closed s1
              (bytes "search filter is not supported (enable NIP-50 in nips.enabled and restart)")
            ∷ [])
        c2
        c1
        s1
    × ((bs ≡ []) ⊎ ((needs_auth settings searching asking ≡ true) × IsChallenge bs))
unfolding congee.Plugin.Intercept.intercept_req lookup ◌==◌
handle_req-refused_example =
    handle_req-refused settings [] [] (pos 7) false broken [] s1 searching asking
      (bytes "search filter is not supported (enable NIP-50 in nips.enabled and restart)") outbox c2
      c1 s1 refl (record { is_open = refl; running = refl; room = omega arith }) searching-IsRefused

handle_req-query_error_example :
    (w' : World) × (handle_req settings [] [] (pos 7) false broken [] s1 (every ∷ []) asking
      ≡ some (w', none))
    × (lookup c1 w'.state.net ≡ some (push outbox (closed s1 (bytes "internal error") ∷ [])))
    × (is_open c1 s1 w'.state.manager ≡ true)
    × (entry c1 s1 w'.state.manager ≡ some (new_entry (every ∷ []) (pos 7)))
unfolding add congee.Relay.Auth.subscribe_auth_required congee.Plugin.Intercept.intercept_req
    congee.Prelude.trim_space lookup ◌==◌ fetch_req_page effective_query_page_size
    new_req_query_state effective_req_default_query_limit
handle_req-query_error_example =
    handle_req-query_error settings [] [] (pos 7) false broken [] s1 (every ∷ []) asking
      (bytes "down") outbox refl refl refl refl refl refl
      (record { is_open = refl; running = refl; room = omega arith }) refl

abbrev opened : State
opened = record { net = (c1, outbox) ∷ []; manager = manager ((c1, (s1, open_entry) ∷ []) ∷ []) }

drain_remaining_pages-query_error_example :
    (y : State) × (map_end c1 s1 (drain_remaining_pages (broken ∷ []) c1 s1 (pos 2) cursor opened)
      ≡ some y)
    × (lookup c1 y.net ≡ some (push outbox (closed s1 (bytes "internal error") ∷ eose s1 ∷ [])))
    × (entry c1 s1 y.manager ≡ none)
unfolding fetch_req_page new_req_query_state congee.Prelude.trim_space lookup
    congee.Relay.Subs.subs_of ◌==◌
drain_remaining_pages-query_error_example =
    drain_remaining_pages-query_error broken [] c1 s1 (pos 2) cursor opened (bytes "down")
      open_entry outbox refl
      (record {
        found = refl;
        sender = refl;
        outbox = refl;
        room = record { is_open = refl; running = refl; room = omega arith };
      })

-- The store of two pages keeps to `until`, with times up to 6.
two_pages-Dated : Dated 6 two_pages
two_pages-Dated = record { last = λ f evs t. answered f.until evs t }
  where
    answered :
        (until : Option ℤ) (evs : List Event) (t : ℤ)
        → (elim until [ none ↦ success (newer_note ∷ note ∷ []) | some u ↦ success [] ])
          ≡ success evs
        → last_created_at evs ≡ some t
        → (k : ℕ) × (t ≡ pos k) × (k ≤ 6) × ((u : ℤ) → until ≡ some u → t ≤ℤ u)
    answered none evs t e l = (5, ground (arith, e, l), omega arith, λ u q. cc)
    answered (some u) evs t e l = absurd (ground (arith, e, l))

abbrev ten_rounds : List Round
ten_rounds = round ∷ round ∷ round ∷ round ∷ round ∷ round ∷ round ∷ round ∷ round ∷ round ∷ []

drain_remaining_pages-ends_example :
    (y : State) × (drain_remaining_pages ten_rounds c1 s1 (pos 2) cursor opened ≡ some y)
unfolding new_req_query_state all_left congee.Prelude.trim_space
drain_remaining_pages-ends_example =
    drain_remaining_pages-ends 6 ten_rounds c1 s1 (pos 2) cursor opened (omega arith)
      (
        two_pages-Dated,
        (
          two_pages-Dated,
          (
            two_pages-Dated,
            (
              two_pages-Dated,
              (
                two_pages-Dated,
                (
                  two_pages-Dated,
                  (two_pages-Dated, (two_pages-Dated, (two_pages-Dated, (two_pages-Dated, tt)))),
                ),
              ),
            ),
          ),
        ),
      )
      (omega arith)

abbrev page_job : ReqPageJob
page_job = record {
  conn_id = c1;
  sub_id = s1;
  opened_unix = pos 7;
  query = cursor;
  page_size = pos 2;
}

abbrev one_open : World
one_open = record asking { state = opened }

handle_close_lem_example :
    let x = (handle_close (pos 9) s1 one_open).state in
    (lookup c1 x.net ≡ some (push outbox (closed s1 [] ∷ [])))
    × (entry c1 s1 x.manager ≡ none)
    × (run_job round [] page_job [] x ≡ ([], some x))
unfolding ◌==◌ lookup
handle_close_lem_example =
    handle_close_lem (pos 9) s1 c1 s1 one_open outbox round [] page_job [] refl
      (record { is_open = refl; running = refl; room = omega arith }) refl refl

handle_event-refused_example :
    let out =
      (handle_event {Store = ℕ}
        (λ ev st. (st, some (bytes "full")))
        (λ ev b. [])
        settings
        []
        []
        note
        asking
        3).0 in
    (lookup c2 out.0.state.net ≡ lookup c2 asking.state.net)
    × (out.0.state.manager ≡ manager [])
    × (out.1 ≡ 3)
unfolding validate ◌==◌ congee.Nostr.Kind.is_ephemeral
handle_event-refused_example =
    handle_event-refused {Store = ℕ} (λ ev st. (st, some (bytes "full"))) (λ ev b. []) settings []
      [] note asking 3 (bytes "full") c2 refl (inr (refl, refl, refl))

-- A second connection that listens, beside the one that publishes.
abbrev listened : World
listened = record asking {
  state = record {
    net = (c2, outbox) ∷ (c1, outbox) ∷ [];
    manager = record (manager ((c2, (s1, open_entry) ∷ []) ∷ [])) {
      senders = (c1, tt) ∷ (c2, tt) ∷ [];
    };
  };
}

handle_event-published_example :
    (y : Outbox) × (lookup c2
        (handle_event {Store = ℕ}
          (λ ev st. (st + 1, none))
          (nip01_hooks (λ c e. true))
          settings
          []
          []
          note
          listened
          3).0.0.state.net
      ≡ some y)
    × (y.queue ≡ [] ++ due_messages note ((s1, open_entry) ∷ []))
unfolding validate lookup ◌==◌ congee.Nostr.Kind.is_ephemeral congee.Relay.Fanout.reachable
handle_event-published_example =
    handle_event-published {Store = ℕ} (λ ev st. (st + 1, none)) (λ c e. true) settings [] [] note
      listened 3 c2 ((s1, open_entry) ∷ []) outbox refl (inr (refl, refl)) refl refl refl (refl, tt)
      refl refl (record { is_open = refl; running = refl; room = omega arith })
