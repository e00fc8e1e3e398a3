-- ===== src/Relay/Inbound.antt =====
-- internal/relay/handler.go, conn_telemetry.go: what happens to a client's message before its
-- handler. `parse` is `nostr.ParseMessage`, over encoding/json.
pub mod Rates
use congee.Prelude.{
  ℕ, Text, bytes, length, List, Bool, true, false, not, Option, none, some, if◌then◌else◌,
}
use congee.Nostr.Wire.{
  ClientMessage, event_message, req_message, close_message, auth_message, neg_open_message,
  neg_msg_message, neg_close_message,
}
use congee.Relay.Limiter.{
  RateConfig, IpWindows, ConnLimiter, allow_message, allow_inbound_bytes, allow_event, allow_req,
  allow_neg_open, allow_neg_msg, new_conn_limiter,
}
use congee.Relay.Subs.{add64}
use congee.Relay.Idle.{IdleClock, note_client_event}

-- The part of a connection that its messages are counted in.
pub record Inbound : Type 0 where
  pub limiter : ConnLimiter
  pub idle : IdleClock
  pub req_total : ℕ
  pub auth_total : ℕ
  pub neg_open_total : ℕ
  pub neg_msg_total : ℕ

unfoldable pub new_inbound : RateConfig → IdleClock → Inbound
unfolding new_conn_limiter
new_inbound cfg idle = record {
  limiter = new_conn_limiter cfg;
  idle = idle;
  req_total = 0;
  auth_total = 0;
  neg_open_total = 0;
  neg_msg_total = 0;
}

-- What becomes of a message: a NOTICE, or its handler.
pub data Verdict : Type 0 where
  refused : Text → Verdict
  dispatched : ClientMessage → Verdict

unfoldable pub note_inbound_after_parse : ClientMessage → Inbound → Inbound
unfolding note_client_event
note_inbound_after_parse (event_message ev) x = record x {
  idle = note_client_event (record x.idle { client_event_total = add64 x.idle.client_event_total });
}
note_inbound_after_parse (req_message sub_id filters) x = record x { req_total = add64 x.req_total }
note_inbound_after_parse (close_message sub_id) x = x
note_inbound_after_parse (auth_message ev) x = record x { auth_total = add64 x.auth_total }
note_inbound_after_parse (neg_open_message sub_id f m) x = record x {
  neg_open_total = add64 x.neg_open_total;
}
note_inbound_after_parse (neg_msg_message sub_id m) x = record x {
  neg_msg_total = add64 x.neg_msg_total;
}
note_inbound_after_parse (neg_close_message sub_id) x = x

abbrev verdict : Text → ClientMessage → Bool → Verdict
verdict notice msg true = dispatched msg
verdict notice msg false = refused notice

-- The switch on the type of the message.
unfoldable pub limit_type : ℕ → ClientMessage → Inbound → Inbound × Verdict
unfolding allow_event allow_req allow_neg_open allow_neg_msg
limit_type now (event_message ev) x =
    let (cl, ok) = allow_event now x.limiter in
    (record x { limiter = cl }, verdict (bytes "rate limited: events") (event_message ev) ok)
limit_type now (req_message sub_id filters) x =
    let (cl, ok) = allow_req now x.limiter in
    (
      record x { limiter = cl },
      verdict (bytes "rate limited: subscription requests") (req_message sub_id filters) ok,
    )
limit_type now (close_message sub_id) x = (x, dispatched (close_message sub_id))
limit_type now (auth_message ev) x =
    let (cl, ok) = allow_req now x.limiter in
    (
      record x { limiter = cl },
      verdict (bytes "rate limited: subscription requests") (auth_message ev) ok,
    )
limit_type now (neg_open_message sub_id f m) x =
    let (cl, ok) = allow_neg_open now x.limiter in
    (
      record x { limiter = cl },
      verdict (bytes "rate limited: negentropy") (neg_open_message sub_id f m) ok,
    )
limit_type now (neg_msg_message sub_id m) x =
    let (cl, ok) = allow_neg_msg now x.limiter in
    (
      record x { limiter = cl },
      verdict (bytes "rate limited: negentropy") (neg_msg_message sub_id m) ok,
    )
limit_type now (neg_close_message sub_id) x = (x, dispatched (neg_close_message sub_id))

module _ (parse : Text → Option ClientMessage) where
  -- `dispatchPayload` up to the call of the handler.
  unfoldable pub dispatch_payload :
      RateConfig → ℕ → Text → Text → IpWindows → Inbound → IpWindows × Inbound × Verdict
  unfolding allow_message allow_inbound_bytes note_inbound_after_parse limit_type
  dispatch_payload cfg now peer_ip payload w x =
      let (w', may_send) = allow_message cfg now peer_ip w in
      let (cl, fits) = allow_inbound_bytes now (length payload) x.limiter in
      let x' = record x { limiter = cl } in
      if not may_send
      then (w', x, refused (bytes "rate limited: too many messages from this IP"))
      else if not fits
      then (w', x', refused (bytes "rate limited: bandwidth"))
      else elim (parse payload) [
        | none ↦ (w', x', refused (bytes "invalid message"))
        | some msg ↦
            let (x'', v) = limit_type now msg (note_inbound_after_parse msg x') in (w', x'', v)
      ]
