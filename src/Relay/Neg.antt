-- ===== src/Relay/Neg.antt =====
-- internal/relay/nip77.go, neg_sessions.go, negqueue.go: the relay's side of NIP-77 reconciliation.
-- A handler, a job and a timer that fires are a step each; the test and the reservation of NEG-OPEN,
-- over which the code holds no lock, are also definitions of their own. The reconciliation of go-nostr
-- and the store's answers are arguments; a pointer to a session is its `uid`, and an int is unbounded.
pub mod Run
pub mod Sessions
pub mod Steps
pub mod Bounds
pub mod Leak
use congee.Prelude.{
  ℕ, zero, suc, ◌+◌, ◌-◌, ◌/◌, ◌%◌, Text, bytes, ltb, leb, eqb, length, is_empty, is_some, Map,
  lookup, insert, delete, ℤ, pos, negsuc, ltb_ℤ, leb_ℤ, ◌-ℤ◌, List, [], ◌∷◌, ◌++◌, Bool, true,
  false, not, ◌&&◌, Option, none, some, Result, success, failure, if◌then◌else◌,
}
use congee.Config.{Config, nip_enabled, nip77_max_concurrent_sessions}
use congee.Nostr.Filter.{Filter, has_search}
use congee.Nostr.Wire.{RelayMessage, neg_err, marshal_relay_neg_msg}
use congee.Relay.Outbox.{Net, send}
use congee.Relay.Auth.{AuthState, subscribe_auth_required, nip42_has_any_auth}

pub record Session (Neg : Type 0) : Type 0 where
  pub uid : ℕ
  pub record_count : ℕ
  pub opened_unix : ℤ
  pub rounds : ℕ
  pub last_act_unix : ℤ
  pub neg : Neg

pub record NegOpenJob : Type 0 where
  pub conn_id : Text
  pub sub_id : Text
  pub filter : Filter
  pub initial_hex : Text

-- `active` is `negActiveSessions`, and `slots` the tokens that are left in `negLoadSlots`. A
-- connection with no entry in `sessions` has no session.
pub record NegState (Neg : Type 0) : Type 0 where
  pub active : ℤ
  pub sessions : Map (Map (Session Neg))
  pub jobs : List NegOpenJob
  pub slots : ℕ
  pub next_uid : ℕ
  pub net : Net

abbrev pub neg_queue_capacity : ℕ
neg_queue_capacity = 64

abbrev pub inc : ℤ → ℤ
inc a = a -ℤ negsuc 0

abbrev pub dec : ℤ → ℤ
dec a = a -ℤ pos 1

-- `RelayBusyForNeg`: `pending` is the depth of the queue of REQ pages.
unfoldable pub relay_busy_for_neg : Config → ℕ → Bool
relay_busy_for_neg cfg pending =
    let depth = cfg.nip77.backpressure_req_queue_depth in
    if leb_ℤ depth (pos 0) then false else leb_ℤ depth (pos pending)

unfoldable pub validate_neg_filter : Config → AuthState → Filter → Option Text
unfolding has_search subscribe_auth_required nip42_has_any_auth
validate_neg_filter cfg auth f =
    if has_search f
    then some (bytes "blocked: search filters not supported")
    else if is_some f.limit
    then some (bytes "blocked: limit filters not supported for NEG-OPEN")
    else if subscribe_auth_required cfg (f ∷ []) && not (nip42_has_any_auth auth)
    then some (bytes "auth-required: subscription requires authentication")
    else none

-- The tests of `handleNEGOpen`: why it is blocked, if it is.
unfoldable pub neg_open_blocked : Config → AuthState → ℕ → Text → Filter → ℤ → Option Text
unfolding nip_enabled relay_busy_for_neg nip77_max_concurrent_sessions validate_neg_filter
neg_open_blocked cfg auth pending s f active =
    if not (nip_enabled (pos 77) cfg)
    then some (bytes "blocked: NIP-77 is not enabled")
    else if ltb_ℤ cfg.max_subscription_id_length (pos (length s))
    then some (bytes "blocked: relay: subscription id too long")
    else if relay_busy_for_neg cfg pending
    then some (bytes "blocked: relay busy")
    else if leb_ℤ (nip77_max_concurrent_sessions cfg) active
    then some (bytes "blocked: too many sync sessions")
    else validate_neg_filter cfg auth f

-- The decimal digits of a number, on fuel: it has fewer digits than its successor.
abbrev digits : ℕ → ℕ → Text
digits zero n = []
digits (suc fuel) n =
    let rest = digits fuel (n / 10) in
    if ltb n 10 then (48 + n) ∷ [] else rest ++ (48 + n % 10) ∷ []

abbrev pub decimal : ℕ → Text
decimal n = digits (n + 1) n

module _ {Neg : Type 0} where
  abbrev pub entries_or_empty : Option (Map (Session Neg)) → Map (Session Neg)
  entries_or_empty none = []
  entries_or_empty (some m) = m

  unfoldable pub sessions_of : Text → NegState Neg → Map (Session Neg)
  sessions_of c x = entries_or_empty (lookup c x.sessions)

  unfoldable pub put_sessions : Text → Map (Session Neg) → NegState Neg → NegState Neg
  put_sessions c m x = record x { sessions = insert c m x.sessions }

  -- `negSessionMap.remove` or `close` with the decrement that follows where it removed a session.
  unfoldable pub remove_session : Text → Text → NegState Neg → NegState Neg
  unfolding sessions_of put_sessions
  remove_session c s x =
      if is_some (lookup s (sessions_of c x))
      then record (put_sessions c (delete s (sessions_of c x)) x) { active = dec x.active }
      else x

  abbrev pub is_session : ℕ → Option (Session Neg) → Bool
  is_session uid none = false
  is_session uid (some cur) = eqb cur.uid uid

  -- `removeIf`, with its decrement.
  unfoldable pub remove_session_if : Text → Text → ℕ → NegState Neg → NegState Neg
  unfolding sessions_of remove_session
  remove_session_if c s uid x =
      if is_session uid (lookup s (sessions_of c x)) then remove_session c s x else x

  unfoldable pub set_session : Text → Text → Session Neg → NegState Neg → NegState Neg
  unfolding sessions_of put_sessions
  set_session c s sess x = put_sessions c (insert s sess (sessions_of c x)) x

  unfoldable pub send_neg_err : Text → Text → Text → NegState Neg → NegState Neg
  unfolding send
  send_neg_err c s reason x = record x { net = (send x.net c (neg_err s reason)).0 }

  abbrev pub release_slot : NegState Neg → NegState Neg
  release_slot x = record x { active = dec x.active }

  -- What follows the tests of `handleNEGOpen`: a session under the id is closed, a slot is reserved, and the job queued.
  unfoldable pub neg_open_reserve : NegOpenJob → NegState Neg → NegState Neg
  unfolding remove_session send_neg_err
  neg_open_reserve job x =
      let x' = remove_session job.conn_id job.sub_id x in
      let x'' = record x' { active = inc x'.active } in
      if ltb (length x''.jobs) neg_queue_capacity
      then record x'' { jobs = x''.jobs ++ job ∷ [] }
      else send_neg_err job.conn_id job.sub_id (bytes "blocked: sync queue full") (release_slot x'')

  unfoldable pub handle_neg_open : Config → AuthState → ℕ → NegOpenJob → NegState Neg → NegState Neg
  unfolding neg_open_blocked neg_open_reserve send_neg_err
  handle_neg_open cfg auth pending job x =
      elim (neg_open_blocked cfg auth pending job.sub_id job.filter x.active) [
        | some reason ↦ send_neg_err job.conn_id job.sub_id reason x
        | none ↦ neg_open_reserve job x
      ]
