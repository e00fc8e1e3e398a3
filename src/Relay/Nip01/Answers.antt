-- ===== src/Relay/Nip01/Answers.antt =====
-- What is left of a CLOSE, and of an EVENT that is refused.
use congee.Prelude.{
  ◌+◌, Text, bytes, ◌==◌, ==_refl, has_prefix, lookup, lookup-insert, is_some, ℤ, List, [], ◌∷◌,
  Bool, false, ◌&&◌, Option, none, some, ◌≡◌, refl, ◌∙◌, ◌⊎◌, inl, inr, arith, Bool-cases,
  Option-cases, if◌then◌else◌,
}
use congee.Config.{Config}
use congee.Nostr.Event.{Event}
use congee.Nostr.Kind.{is_ephemeral}
use congee.Nostr.Wire.{RelayMessage, closed, ok}
use congee.Relay.Outbox.{Outbox}
use congee.Relay.Outbox.Queue.{HasRoom, push, send-HasRoom, send_other}
use congee.Relay.Subs.{Manager, is_same_snapshot}
use congee.Relay.Subs.Open.{entry, remove-entry}
use congee.Relay.Fanout.Reach.{State}
use congee.Relay.Hooks.{HookChain}
use congee.Relay.Reader.{Round, ReqPageJob, run_job}
use congee.Relay.Nip01.{
  Conn, World, reply, challenge, note_count, handle_close, validate, handle_event,
}

no_snapshot :
    (c s : Text) (t : ℤ) (m : Manager) → entry c s m ≡ none → is_same_snapshot c s t m ≡ false
unfolding is_same_snapshot
no_snapshot c s t m h = elim (Bool-cases (is_some (lookup c m.senders))) [
  | inl there ↦ rw (is_same_snapshot, there, h) refl
  | inr gone ↦ rw (is_same_snapshot, gone) refl
]

dropped :
    (r : Round) (rounds : List Round) (job : ReqPageJob) (jobs : List ReqPageJob) (x : State)
    → entry job.conn_id job.sub_id x.manager ≡ none
    → run_job r rounds job jobs x ≡ (jobs, some x)
unfolding run_job
dropped r rounds job jobs x h = elim (Bool-cases (is_some (lookup job.conn_id x.net))) [
  | inr gone ↦ rw gone refl
  | inl known ↦ rw (known, no_snapshot job.conn_id job.sub_id job.opened_unix x.manager h) refl
]

-- A CLOSE from a connection with room is answered with CLOSED; its subscription is gone and every
-- other is as it was; and the pages of its snapshot that are still in the queue are dropped, so that
-- nothing more is sent for it.
pub handle_close_lem :
    (now : ℤ) (s c' s' : Text) (w : World) (box : Outbox) (r : Round) (rounds : List Round)
    (job : ReqPageJob) (jobs : List ReqPageJob)
    → lookup w.conn.id w.state.net ≡ some box
    → HasRoom 1 box
    → job.conn_id ≡ w.conn.id
    → job.sub_id ≡ s
    → let x = (handle_close now s w).state in
      (lookup w.conn.id x.net ≡ some (push box (closed s [] ∷ [])))
      × (entry c' s' x.manager
          ≡ (if w.conn.id == c' && s == s' then none else entry c' s' w.state.manager))
      × (run_job r rounds job jobs x ≡ (jobs, some x))
unfolding handle_close reply note_count
handle_close_lem now s c' s' w box r rounds job jobs p room own sub = (
  (send-HasRoom 0 w.state.net w.conn.id (closed s []) box p (one room)).0,
  remove-entry w.conn.id s w.state.manager c' s',
  dropped r rounds job jobs (handle_close now s w).state
      (rw (own, sub, remove-entry, ==_refl w.conn.id, ==_refl s) refl),
)
  where
    one : HasRoom 1 box → HasRoom (0 + 1) box
    one h = record { is_open = h.is_open; running = h.running; room = omega (arith, h.room) }

pub challenge-others :
    (cfg : Config) (fresh : Text) (w : World) (d : Text)
    → (w.conn.id == d) ≡ false
    → (lookup d (challenge cfg fresh w).state.net ≡ lookup d w.state.net)
      × ((challenge cfg fresh w).state.manager ≡ w.state.manager)
      × ((challenge cfg fresh w).conn.id ≡ w.conn.id)
unfolding challenge
challenge-others cfg fresh w d ne = elim (Option-cases (lookup w.conn.id w.state.net)) [
  | inl e ↦ rw (e, challenge) (refl, refl, refl)
  | inr (box, e) ↦ rw (e, challenge) (rw (lookup-insert, ne) refl, refl, refl)
]

-- The challenge that comes before the answer of some refusals.
challenged : Config → Text → Text → World → World
challenged cfg fresh reason w =
    if has_prefix reason (bytes "auth-required:") then challenge cfg fresh w else w

challenged-others :
    (cfg : Config) (fresh reason : Text) (w : World) (d : Text)
    → (w.conn.id == d) ≡ false
    → (lookup d (challenged cfg fresh reason w).state.net ≡ lookup d w.state.net)
      × ((challenged cfg fresh reason w).state.manager ≡ w.state.manager)
      × ((challenged cfg fresh reason w).conn.id ≡ w.conn.id)
unfolding challenged
challenged-others cfg fresh reason w d ne =
    elim (Bool-cases (has_prefix reason (bytes "auth-required:"))) [
      | inl auth ↦ rw auth (challenge-others cfg fresh w d ne)
      | inr other ↦ rw other (refl, refl, refl)
    ]

pub reply-others :
    (b : RelayMessage) (w : World) (d : Text)
    → (w.conn.id == d) ≡ false
    → (lookup d (reply b w).0.state.net ≡ lookup d w.state.net)
      × ((reply b w).0.state.manager ≡ w.state.manager)
unfolding reply
reply-others b w d ne = (send_other w.state.net w.conn.id d b ne, refl)

module _ {Store : Type 0} (save_event : Event → Store → Store × Option Text)
    (hooks : Event → Bool → HookChain (World × Store)) where
  -- An EVENT that a validator refuses, or that is to be stored and is not, runs no hook: whatever the
  -- hooks are, no other connection is sent anything and no subscription changes, and the store is as
  -- it was where a validator refused.
  pub handle_event-refused :
      (cfg : Config) (fresh : Text) (validators : List (Conn → Event → Option Text)) (ev : Event)
      (w : World) (st : Store) (reason : Text) (d : Text)
      → (w.conn.id == d) ≡ false
      → ((validate validators w.conn ev ≡ some reason)
          ⊎ ((validate validators w.conn ev ≡ none)
              × (is_ephemeral ev.kind ≡ false)
              × ((save_event ev st).1 ≡ some reason)))
      → let out = (handle_event save_event hooks cfg fresh validators ev w st).0 in
        (lookup d out.0.state.net ≡ lookup d w.state.net)
        × (out.0.state.manager ≡ w.state.manager)
        × (out.1 ≡ (if is_some (validate validators w.conn ev) then st else (save_event ev st).0))
  unfolding handle_event challenged
  handle_event-refused cfg fresh validators ev w st reason d ne (inl bad) =
      let (a, b, own) = challenged-others cfg fresh reason w d ne in
      let (a', b') =
        reply-others (ok ev.id false reason) (challenged cfg fresh reason w) d (rw own ne) in
      rw (bad, handle_event) (a' ∙ a, b' ∙ b, refl)
  handle_event-refused cfg fresh validators ev w st reason d ne (inr (fine, stored, failed)) =
      let (a, b) = reply-others (ok ev.id false reason) w d ne in
      rw (fine, handle_event, stored, failed) (a, b, refl)
