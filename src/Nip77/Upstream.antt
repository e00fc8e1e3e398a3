-- ===== src/Nip77/Upstream.antt =====
-- internal/nip77/upstream/client.go, auth.go: what passes between this relay, as a client, and an
-- upstream. What the upstream sends is a list of reads, and it is silent after the last of them; a
-- deadline that has passed is a read that times out. What a payload holds at a place is decoded, and
-- is empty where the code finds nothing there. `send_error` is what a write answers, after the
-- messages that were written before. This allows more than the library does: a read may follow one
-- that timed out, where the library's connection fails for good, and the 30 seconds that a request
-- by ids has in all show as a read that times out at any place.
pub mod Sync
pub mod Scheduler
use congee.Prelude.{
  ℕ, Text, bytes, ◌==◌, to_lower, is_empty, take, ℤ, pos, List, [], ◌∷◌, ◌++◌, Bool, true, false,
  not, Option, none, some, Result, success, failure, if◌then◌else◌,
}
use congee.Nostr.Event.{Event}
use congee.Nostr.Filter.{Filter}

pub record Message : Type 0 where
  pub typ : Text
  pub text1 : Text
  pub text2 : Text
  pub text3 : Text
  pub bool2 : Bool
  pub event2 : Option Event

pub data Read : Type 0 where
  received : Message → Read
  timeout : Read
  broken : Text → Read

-- What is written to the upstream.
pub data Outgoing : Type 0 where
  neg_open : Text → Filter → Text → Outgoing
  neg_msg : Text → Text → Outgoing
  neg_close : Text → Outgoing
  auth : Event → Outgoing
  req : Text → Text → Outgoing
  close : Text → Outgoing

pub data SyncError : Type 0 where
  no_filters parse_failed query_failed dial_failed send_failed read_failed : Text → SyncError
  auth_failed auth_rejected neg_err reconcile_failed : Text → SyncError
  auth_timeout : SyncError
  neg_timeout : ℕ → SyncError

-- The state of a connection to an upstream: what is left to read, and what was written.
pub record Link : Type 0 where
  pub reads : List Read
  pub sent : List Outgoing

pub data Ended (A : Type 0) : Type 0 where
  ended : A → Ended A
  failed : SyncError → Ended A

-- What the code does not implement: the key of the relay, the URL's normal form, the clock and the
-- writes of the connection.
pub record Environment : Type 0 where
  pub sign : Option (Event → Result Event)
  pub normalize : Text → Result Text
  pub now : ℤ
  pub send_error : List Outgoing → Outgoing → Option Text

module _ (env : Environment) where
  unfoldable pub send_json : Outgoing → List Outgoing → List Outgoing × Option Text
  send_json b sent = elim (env.send_error sent b) [
    | none ↦ (sent ++ b ∷ [], none)
    | some e ↦ (sent, some e)
  ]

  abbrev success_or : Text → Result Text → Text
  success_or url (failure e) = url
  success_or url (success n) = n

  unfoldable pub auth_relay_tag : Text → Text
  auth_relay_tag url = success_or url (env.normalize url)

  unfoldable pub build_upstream_auth_event : Text → Text → Result Event
  unfolding auth_relay_tag bytes
  build_upstream_auth_event url challenge = elim env.sign [
    | none ↦ failure (bytes "upstream AUTH requires relay identity")
    | some sign ↦
        if is_empty challenge
        then failure (bytes "empty AUTH challenge")
        else sign (record {
          id = [];
          pub_key = [];
          created_at = env.now;
          kind = pos 22242;
          tags =
              (bytes "relay" ∷ auth_relay_tag url ∷ []) ∷ (bytes "challenge" ∷ challenge ∷ []) ∷ [];
          content = [];
          sig = [];
        })
  ]

  abbrev pub sent_or :
      (Text → SyncError) → List Outgoing × Option Text → List Outgoing × Option SyncError
  sent_or kind (sent, none) = (sent, none)
  sent_or kind (sent, some e) = (sent, some (kind e))

  abbrev pub answer_with : List Outgoing → Result Event → List Outgoing × Option SyncError
  answer_with sent (failure e) = (sent, some (auth_failed e))
  answer_with sent (success ev) = sent_or send_failed (send_json (auth ev) sent)

  unfoldable pub answer_auth : Text → Text → List Outgoing → List Outgoing × Option SyncError
  unfolding build_upstream_auth_event send_json
  answer_auth url challenge sent = answer_with sent (build_upstream_auth_event url challenge)

  -- What follows an answer: `next` where it was written.
  abbrev pub after_auth {ℓ} :
      {A : Type ℓ}
      → (List Outgoing → A)
      → (List Outgoing → SyncError → A)
      → List Outgoing × Option SyncError
      → A
  after_auth next stop (sent, none) = next sent
  after_auth next stop (sent, some e) = stop sent e

  unfoldable pub wait_auth_ok : Text → List Read → List Outgoing → Link × Option SyncError
  unfolding answer_auth
  wait_auth_ok url [] sent = (record { reads = []; sent = sent }, some auth_timeout)
  wait_auth_ok url (timeout ∷ r) sent = (record { reads = r; sent = sent }, some auth_timeout)
  wait_auth_ok url (broken e ∷ r) sent = (record { reads = r; sent = sent }, some (read_failed e))
  wait_auth_ok url (received m ∷ r) sent =
      let again =
        after_auth (λ sent'. wait_auth_ok url r sent')
          (λ sent' e. (record { reads = r; sent = sent' }, some e))
          (answer_auth url m.text1 sent) in
      let rest = wait_auth_ok url r sent in
      if m.typ == bytes "OK"
      then (
        record { reads = r; sent = sent },
        if m.bool2 then none else some (auth_rejected m.text3),
      )
      else if m.typ == bytes "AUTH"
      then again
      else rest

  -- An upstream that asks for no authentication in time is taken to need none.
  unfoldable pub handshake_auth : Text → List Read → List Outgoing → Link × Option SyncError
  unfolding answer_auth wait_auth_ok
  handshake_auth url [] sent = (record { reads = []; sent = sent }, none)
  handshake_auth url (timeout ∷ r) sent = (record { reads = r; sent = sent }, none)
  handshake_auth url (broken e ∷ r) sent = (record { reads = r; sent = sent }, some (read_failed e))
  handshake_auth url (received m ∷ r) sent =
      let rest = handshake_auth url r sent in
      if m.typ == bytes "AUTH"
      then after_auth (λ sent'. wait_auth_ok url r sent')
          (λ sent' e. (record { reads = r; sent = sent' }, some e)) (answer_auth url m.text1 sent)
      else rest

  abbrev pub is_wanted_event : Text → Option Event → Bool
  is_wanted_event id none = false
  is_wanted_event id (some ev) = ev.id == id

  -- The loop of `reqEventByID`: `none` where the event is not had.
  unfoldable pub await_event : Text → Text → List Read → List Outgoing → Link × Option Event
  unfolding send_json ◌==◌
  await_event id sub [] sent = (record { reads = []; sent = sent }, none)
  await_event id sub (timeout ∷ r) sent = (record { reads = r; sent = sent }, none)
  await_event id sub (broken e ∷ r) sent = (record { reads = r; sent = sent }, none)
  await_event id sub (received m ∷ r) sent =
      let rest = await_event id sub r sent in
      let closed : Link = record { reads = r; sent = (send_json (close sub) sent).0 } in
      if m.typ == bytes "EVENT"
      then (if is_wanted_event id m.event2 then (closed, m.event2) else rest)
      else if m.typ == bytes "EOSE"
      then (closed, none)
      else rest

  abbrev pub await_sent :
      Text → Text → List Read → List Outgoing × Option Text → Link × Option Event
  await_sent id sub reads (sent, none) = await_event id sub reads sent
  await_sent id sub reads (sent, some e) = (record { reads = reads; sent = sent }, none)

  -- The ids that the reconciliation names are longer than 8.
  unfoldable pub req_event_by_id : Text → Link → Link × Option Event
  unfolding send_json await_event bytes
  req_event_by_id id link =
      let sub = bytes "fetch-" ++ take 8 id in
      await_sent id sub link.reads (send_json (req sub id) link.sent)
