-- ===== src/Relay/Inbound/Rates.antt =====
-- The messages of a connection that reach their handlers, over a whole run.
use congee.Prelude.{
  ℕ, ◌+◌, ◌≤◌, Text, length, keep, map, List, [], ◌∷◌, ◌++◌, Bool, true, false, not, Option, none,
  some, ◌≡◌, refl, subst, arith, inl, inr, Bool-cases, Option-cases, if◌then◌else◌,
}
use congee.Nostr.Wire.{
  ClientMessage, event_message, req_message, close_message, auth_message, neg_open_message,
  neg_msg_message, neg_close_message,
}
use congee.Relay.Limiter.{
  RateConfig, IpWindows, SlidingEvents, minute, allow, allow_message, allow_inbound_bytes,
  new_conn_limiter, allow_event, allow_req, allow_neg_open, allow_neg_msg,
}
use congee.Relay.Limiter.Window.{accepts, Ascending, between, accepts_bounded}
use congee.Relay.Inbound.{
  Inbound, Verdict, refused, dispatched, note_inbound_after_parse, limit_type, dispatch_payload,
  new_inbound,
}
use congee.Relay.Idle.{IdleClock}

-- A message with the time of its arrival and the windows of its address then, which other
-- connections of the address share.
pub record Arrival : Type 0 where
  pub at : ℕ
  pub payload : Text
  pub windows : IpWindows

abbrev is_event : ClientMessage → Bool
is_event (event_message ev) = true
is_event (req_message sub_id filters) = false
is_event (close_message sub_id) = false
is_event (auth_message ev) = false
is_event (neg_open_message sub_id f m) = false
is_event (neg_msg_message sub_id m) = false
is_event (neg_close_message sub_id) = false

abbrev hands_event : Verdict → Bool
hands_event (refused notice) = false
hands_event (dispatched msg) = is_event msg

abbrev some_event : Option ClientMessage → Bool
some_event none = false
some_event (some msg) = is_event msg

-- The switch on an EVENT asks the window of events, and on any other message leaves it.
limit_type-events :
    (now : ℕ) (msg : ClientMessage) (x : Inbound)
    → ((limit_type now msg x).0.limiter.events
        ≡ (if is_event msg then (allow now x.limiter.events).0 else x.limiter.events))
      × (hands_event (limit_type now msg x).1
          ≡ (if is_event msg then (allow now x.limiter.events).1 else false))
unfolding limit_type allow_event allow_req allow_neg_open allow_neg_msg
limit_type-events now (event_message ev) x = elim (Bool-cases (allow now x.limiter.events).1) [
  | inl ok ↦ (refl, rw ok refl)
  | inr ko ↦ (refl, rw ko refl)
]
limit_type-events now (req_message sub_id filters) x =
    elim (Bool-cases (allow now x.limiter.reqs).1) [
      | inl ok ↦ (refl, rw ok refl)
      | inr ko ↦ (refl, rw ko refl)
    ]
limit_type-events now (close_message sub_id) x = (refl, refl)
limit_type-events now (auth_message ev) x = elim (Bool-cases (allow now x.limiter.reqs).1) [
  | inl ok ↦ (refl, rw ok refl)
  | inr ko ↦ (refl, rw ko refl)
]
limit_type-events now (neg_open_message sub_id f m) x =
    elim (Bool-cases (allow now x.limiter.neg_open).1) [
      | inl ok ↦ (refl, rw ok refl)
      | inr ko ↦ (refl, rw ko refl)
    ]
limit_type-events now (neg_msg_message sub_id m) x =
    elim (Bool-cases (allow now x.limiter.neg_msg).1) [
      | inl ok ↦ (refl, rw ok refl)
      | inr ko ↦ (refl, rw ko refl)
    ]
limit_type-events now (neg_close_message sub_id) x = (refl, refl)

noted-events :
    (msg : ClientMessage) (x : Inbound) → (note_inbound_after_parse msg x).limiter ≡ x.limiter
unfolding note_inbound_after_parse
noted-events (event_message ev) x = refl
noted-events (req_message sub_id filters) x = refl
noted-events (close_message sub_id) x = refl
noted-events (auth_message ev) x = refl
noted-events (neg_open_message sub_id f m) x = refl
noted-events (neg_msg_message sub_id m) x = refl
noted-events (neg_close_message sub_id) x = refl

Ascending-from : (lo t : ℕ) (ts : List ℕ) → lo ≤ t → Ascending t ts → Ascending lo ts
Ascending-from lo t [] le h = tt
Ascending-from lo t (u ∷ ts) le h = (omega (arith, le, h.0), h.1)

module _ (parse : Text → Option ClientMessage) (cfg : RateConfig) (peer_ip : Text) where
  dispatches : Arrival → Inbound → IpWindows × Inbound × Verdict
  dispatches a x = dispatch_payload parse cfg a.at peer_ip a.payload a.windows x

  -- Whether a message gets to the window of events.
  asks : Arrival → Inbound → Bool
  asks a x =
      if not (allow_message cfg a.at peer_ip a.windows).1
      then false
      else if not (allow_inbound_bytes a.at (length a.payload) x.limiter).1
      then false
      else some_event (parse a.payload)

  dispatches-events :
      (a : Arrival) (x : Inbound)
      → ((dispatches a x).1.limiter.events
          ≡ (if asks a x then (allow a.at x.limiter.events).0 else x.limiter.events))
        × (hands_event (dispatches a x).2
            ≡ (if asks a x then (allow a.at x.limiter.events).1 else false))
  unfolding dispatches asks dispatch_payload allow_inbound_bytes
  dispatches-events a x = elim (Bool-cases (allow_message cfg a.at peer_ip a.windows).1) [
    | inr limited ↦ rw limited (refl, refl)
    | inl may_send ↦ elim (Bool-cases (allow_inbound_bytes a.at (length a.payload) x.limiter).1) [
      | inr wide ↦ rw (may_send, wide) (refl, refl)
      | inl fits ↦ elim (Option-cases (parse a.payload)) [
        | inl unread ↦ rw (may_send, fits, unread) (refl, refl)
        | inr (msg, read) ↦
            let x' = record x {
              limiter = (allow_inbound_bytes a.at (length a.payload) x.limiter).0;
            } in
            let same = noted-events msg x' in
            rw (may_send, fits, read)
              (subst
                (λ l.
                  ((limit_type a.at msg (note_inbound_after_parse msg x')).0.limiter.events
                    ≡ (if is_event msg then (allow a.at l.events).0 else l.events))
                  × (hands_event (limit_type a.at msg (note_inbound_after_parse msg x')).1
                      ≡ (if is_event msg then (allow a.at l.events).1 else false)))
                same (limit_type-events a.at msg (note_inbound_after_parse msg x')))
      ]
    ]
  ]

  -- The times of a run at which an EVENT is handed to its handler.
  unfoldable pub handed : List Arrival → Inbound → List ℕ
  unfolding dispatch_payload
  handed [] x = []
  handed (a ∷ run) x =
      let (_, x', v) = dispatch_payload parse cfg a.at peer_ip a.payload a.windows x in
      (if hands_event v then a.at ∷ [] else []) ++ handed run x'

  asked : List Arrival → Inbound → List ℕ
  asked [] x = []
  asked (a ∷ run) x = (if asks a x then a.at ∷ [] else []) ++ asked run (dispatches a x).1

  handed-nil : (x : Inbound) → handed [] x ≡ accepts [] x.limiter.events
  unfolding handed accepts
  handed-nil x = refl

  handed-cons :
      (a : Arrival) (run : List Arrival) (x : Inbound)
      → handed (a ∷ run) x
        ≡ (if hands_event (dispatches a x).2 then a.at ∷ [] else [])
          ++ handed run (dispatches a x).1
  unfolding handed dispatches
  handed-cons a run x = refl

  accepts-cons :
      (now : ℕ) (ts : List ℕ) (s : SlidingEvents)
      → accepts (now ∷ ts) s
        ≡ (if (allow now s).1 then now ∷ [] else []) ++ accepts ts (allow now s).0
  unfolding accepts
  accepts-cons now ts s = refl

  handed-accepts :
      (run : List Arrival) (x : Inbound) → handed run x ≡ accepts (asked run x) x.limiter.events
  unfolding asked
  handed-accepts [] x = handed-nil x
  handed-accepts (a ∷ run) x =
      let (kept, gone) = dispatches-events a x in
      let rest = handed-accepts run (dispatches a x).1 in
      elim (Bool-cases (asks a x)) [
        | inl on ↦ rw (handed-cons, gone, on, accepts-cons, rest, kept, on) refl
        | inr off ↦ rw (handed-cons, gone, off, rest, kept, off) refl
      ]

  asked-Ascending :
      (run : List Arrival) (x : Inbound) (lo : ℕ)
      → Ascending lo (map (λ a. a.at) run)
      → Ascending lo (asked run x)
  unfolding asked
  asked-Ascending [] x lo h = tt
  asked-Ascending (a ∷ run) x lo h = elim (Bool-cases (asks a x)) [
    | inl on ↦ rw on (h.0, asked-Ascending run (dispatches a x).1 a.at h.1)
    | inr off ↦ rw off (
        asked-Ascending run (dispatches a x).1 lo
          (Ascending-from lo a.at (map (λ a. a.at) run) h.0 h.1))
  ]

  -- From a new connection, with a clock that never goes back: in any minute, its ends included, no
  -- more of its EVENT messages are handed to their handler than the settings allow, whatever it and
  -- the other connections of its address send.
  pub handed_bounded :
      (run : List Arrival) (idle : IdleClock) (t : ℕ)
      → Ascending 0 (map (λ a. a.at) run)
      → length (keep (between t (t + minute)) (handed run (new_inbound cfg idle)))
        ≤ cfg.events_per_minute_per_connection
  unfolding new_inbound new_conn_limiter
  handed_bounded run idle t h = rw (handed-accepts run (new_inbound cfg idle)) (
      accepts_bounded minute cfg.events_per_minute_per_connection (asked run (new_inbound cfg idle))
        (asked-Ascending run (new_inbound cfg idle) 0 h) t)
