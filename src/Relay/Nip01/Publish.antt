-- ===== src/Relay/Nip01/Publish.antt =====
-- internal/relay/nip01.go: the post hooks of `RegisterNIP01`, and what they make of an EVENT that is
-- accepted. The audit log of the second hook is not modelled.
use congee.Prelude.{
  Text, bytes, ◌==◌, length, lookup, Map, Distinct, eqb_ℤ, List, [], ◌++◌, Bool, true, false,
  Option, none, some, ◌≡◌, refl, ◌∙◌, ap, ◌⊎◌, inl, inr, if◌then◌else◌,
}
use congee.Config.{Config}
use congee.Nostr.Event.{Event}
use congee.Nostr.Kind.{is_ephemeral}
use congee.Nostr.Wire.{ok}
use congee.Relay.Outbox.{Outbox}
use congee.Relay.Outbox.Queue.{HasRoom}
use congee.Relay.Subs.{SubEntry}
use congee.Relay.Fanout.{reachable, broadcast}
use congee.Relay.Fanout.Delivery.{due_messages, broadcast_due}
use congee.Relay.Auth.{auth_event_kind}
use congee.Relay.Hooks.{HookChain, append_hook, run_hooks}
use congee.Relay.Nip01.{Conn, World, reply, validate, handle_event}
use congee.Relay.Nip01.Answers.{reply-others}

-- `broadcastEvent` on the state of a world.
unfoldable pub broadcast_event : (Text → Event → Bool) → Event → World → World
unfolding broadcast
broadcast_event visible ev w =
    let (net', m') = broadcast visible ev w.state.net w.state.manager in
    record w { state = record { net = net'; manager = m' } }

module _ {Store : Type 0} where
  unfoldable pub nip01_broadcast_event :
      (Text → Event → Bool) → Event → World × Store → (World × Store) × Option Text
  unfolding broadcast_event
  nip01_broadcast_event visible ev (w, st) =
      if eqb_ℤ ev.kind auth_event_kind
      then ((w, st), none)
      else ((broadcast_event visible ev w, st), none)

  abbrev nip01_audit_event : World × Store → (World × Store) × Option Text
  nip01_audit_event x = (x, none)

  -- The chain that `RegisterNIP01` appends to an empty one.
  unfoldable pub nip01_hooks : (Text → Event → Bool) → Event → Bool → HookChain (World × Store)
  unfolding append_hook nip01_broadcast_event
  nip01_hooks visible ev stored =
      append_hook (bytes "nip01_audit_event") nip01_audit_event
        (append_hook (bytes "nip01_broadcast_event") (nip01_broadcast_event visible ev) [])

  nip01_broadcast_event-other :
      (visible : Text → Event → Bool) (ev : Event) (w : World) (st : Store)
      → eqb_ℤ ev.kind auth_event_kind ≡ false
      → nip01_broadcast_event visible ev (w, st) ≡ ((broadcast_event visible ev w, st), none)
  unfolding nip01_broadcast_event
  nip01_broadcast_event-other visible ev w st other = rw other refl

  run_hooks-nip01 :
      (visible : Text → Event → Bool) (ev : Event) (stored : Bool) (w : World) (st : Store)
      → eqb_ℤ ev.kind auth_event_kind ≡ false
      → (run_hooks (nip01_hooks visible ev stored) (w, st)).0 ≡ (broadcast_event visible ev w, st)
  unfolding nip01_hooks append_hook run_hooks
  run_hooks-nip01 visible ev stored w st other =
      let step = nip01_broadcast_event-other visible ev w st other in
      rw (run_hooks, step) (ap (λ o. o.0) step)

  module _ (save_event : Event → Store → Store × Option Text) (visible : Text → Event → Bool) where
    -- An EVENT that the validators accept, and that is ephemeral with its OK sent, or that the store
    -- saves, is handed to every other connection that has a sender, may see it and has room for one
    -- message to each of its subscriptions: once for every open subscription that it matches and whose snapshot is
    -- done, and nothing else is sent there. The hooks are those of NIP-01, and the event is no
    -- authentication event.
    pub handle_event-published :
        (cfg : Config) (fresh : Text) (validators : List (Conn → Event → Option Text)) (ev : Event)
        (w : World) (st : Store) (d : Text) (cmap : Map SubEntry) (x : Outbox)
        → validate validators w.conn ev ≡ none
        → ((is_ephemeral ev.kind ≡ true) × ((reply (ok ev.id true []) w).1 ≡ none))
          ⊎ ((is_ephemeral ev.kind ≡ false) × ((save_event ev st).1 ≡ none))
        → eqb_ℤ ev.kind auth_event_kind ≡ false
        → (w.conn.id == d) ≡ false
        → reachable w.state.manager.senders visible d ev ≡ true
        → Distinct w.state.manager.subs
        → lookup d w.state.manager.subs ≡ some cmap
        → lookup d w.state.net ≡ some x
        → HasRoom (length cmap) x
        → (y : Outbox) × (lookup d
              (handle_event save_event
                (nip01_hooks visible)
                cfg
                fresh
                validators
                ev
                w
                st).0.0.state.net
            ≡ some y)
          × (y.queue ≡ x.queue ++ due_messages ev cmap)
    unfolding handle_event broadcast_event
    handle_event-published cfg fresh validators ev w st d cmap x valid (inl (short, replied)) other
          ne r u e p h =
        let w' = (reply (ok ev.id true []) w).0 in
        let (same, managed) = reply-others (ok ev.id true []) w d ne in
        let (y, q, sent) =
          broadcast_due visible d ev w'.state.net w.state.manager cmap x r u e (same ∙ p) h in
        (
          y,
          rw
              (
                valid,
                handle_event,
                short,
                replied,
                run_hooks-nip01 visible ev false w' st other,
                managed,
              )
              q,
          sent,
        )
    handle_event-published cfg fresh validators ev w st d cmap x valid (inr (kept, saved)) other ne
          r u e p h =
        let w' = broadcast_event visible ev w in
        let (y, q, sent) =
          broadcast_due visible d ev w.state.net w.state.manager cmap x r u e p h in
        (
          y,
          rw
              (
                valid,
                handle_event,
                kept,
                saved,
                run_hooks-nip01 visible ev true w (save_event ev st).0 other,
              )
              ((reply-others (ok ev.id true []) w' d ne).0 ∙ q),
          sent,
        )
