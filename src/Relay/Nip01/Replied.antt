-- ===== src/Relay/Nip01/Replied.antt =====
-- What a handler of a message has sent, and to whom.
use mathlib.Core.List.{append-nil, append_assoc}
use congee.Prelude.{
  ◌+◌, Text, ◌==◌, ==_iff, ==_refl, length-append, lookup, lookup-insert, List, [], ◌∷◌, ◌++◌,
  Option, none, some, ◌≡◌, refl, ap, sym, subst, ◌∙◌, ◌⊎◌, inl, inr, arith, Bool-cases,
  if◌then◌else◌,
}
use congee.Config.{Config}
use congee.Nostr.Wire.{RelayMessage, auth, closed, marshal_relay_auth}
use congee.Relay.Outbox.{Outbox, enqueue, send}
use congee.Relay.Outbox.Queue.{
  HasRoom, push, enqueue-HasRoom, push-HasRoom, send-HasRoom, send_other,
}
use congee.Relay.Subs.Open.{entry}
use congee.Relay.Auth.{AuthState, nip42_enqueue_auth_challenge, nip42_ensure_challenge}
use congee.Relay.Nip01.{World, error_text, reply, challenge}
use congee.Relay.Nip01.Answers.{challenge-others}

-- At most one challenge.
abbrev pub IsChallenge : List RelayMessage → Type 0
IsChallenge bs = (bs ≡ []) ⊎ ((t : Text) × (bs ≡ auth t ∷ []))

pub push-nil : (box : Outbox) → box ≡ push box []
push-nil box = ap (λ q. record box { queue = q }) (sym (append-nil box.queue))

enqueue_auth-cases :
    (cfg : Config) (fresh : Text) (c : AuthState) (box : Outbox)
    → ((nip42_enqueue_auth_challenge cfg fresh c box).1 ≡ box)
      ⊎ ((nip42_enqueue_auth_challenge cfg fresh c box).1
          ≡ (enqueue box (auth (nip42_ensure_challenge fresh c).nip42_challenge)).0)
unfolding nip42_enqueue_auth_challenge nip42_ensure_challenge marshal_relay_auth
enqueue_auth-cases cfg fresh c box = ground arith

-- What the challenge adds to an outbox with room for it.
enqueue_auth-queue :
    (cfg : Config) (fresh : Text) (c : AuthState) (box : Outbox)
    → HasRoom (1 + 1) box
    → (bs : List RelayMessage) × (IsChallenge bs)
      × ((nip42_enqueue_auth_challenge cfg fresh c box).1 ≡ push box bs)
      × HasRoom 1 (push box bs)
enqueue_auth-queue cfg fresh c box room = elim (enqueue_auth-cases cfg fresh c box) [
  | inl q ↦ ([], inl refl, q ∙ push-nil box, subst (HasRoom 1) (push-nil box) (one room))
  | inr q ↦
      let t = (nip42_ensure_challenge fresh c).nip42_challenge in
      (
        auth t ∷ [],
        inr (t, refl),
        q ∙ ap (λ o. o.0) (enqueue-HasRoom 1 box (auth t) room),
        push-HasRoom 1 box (auth t) room,
      )
]
  where
    one : HasRoom (1 + 1) box → HasRoom 1 box
    one h = record { is_open = h.is_open; running = h.running; room = omega (arith, h.room) }

-- The challenge and then the answer, of a connection with room for both.
pub challenge-queue :
    (cfg : Config) (fresh : Text) (w : World) (box : Outbox)
    → lookup w.conn.id w.state.net ≡ some box
    → HasRoom (1 + 1) box
    → (bs : List RelayMessage) × (IsChallenge bs)
      × (lookup w.conn.id (challenge cfg fresh w).state.net ≡ some (push box bs))
      × ((challenge cfg fresh w).conn.id ≡ w.conn.id)
      × ((challenge cfg fresh w).state.manager ≡ w.state.manager)
      × ((challenge cfg fresh w).jobs ≡ w.jobs)
      × HasRoom 1 (push box bs)
unfolding challenge
challenge-queue cfg fresh w box p room =
    let (bs, shape, q, left) = enqueue_auth-queue cfg fresh w.conn.auth box room in
    (
      bs,
      shape,
      rw (p, challenge) (rw (lookup-insert, ==_refl w.conn.id) (ap some q)),
      rw (p, challenge) refl,
      rw (p, challenge) refl,
      rw (p, challenge) refl,
      left,
    )

-- From `w` to `w'` the connection was sent `bs`; no subscription changed and no job was queued.
abbrev pub Sent : World → World → Outbox → List RelayMessage → Text → Text → Text → Type 0
Sent w w' box bs d c' s' =
    (lookup d w'.state.net ≡ (if w.conn.id == d then some (push box bs) else lookup d w.state.net))
    × (entry c' s' w'.state.manager ≡ entry c' s' w.state.manager)
    × (w'.jobs ≡ w.jobs)

reply-Sent :
    (w v : World) (box : Outbox) (bs : List RelayMessage) (b : RelayMessage) (d c' s' : Text)
    → v.conn.id ≡ w.conn.id
    → lookup w.conn.id v.state.net ≡ some (push box bs)
    → HasRoom 1 (push box bs)
    → Sent w v box bs d c' s'
    → ((reply b v).1 ≡ none) × Sent w (reply b v).0 box (bs ++ b ∷ []) d c' s'
unfolding reply
reply-Sent w v box bs b d c' s' same p room (others, entries, jobs) =
    let (there, sent_it) =
      send-HasRoom 0 v.state.net v.conn.id b (push box bs)
        (subst (λ c. lookup c v.state.net ≡ some (push box bs)) (sym same) p) room in
    (
      ap error_text sent_it,
      (
        elim (Bool-cases (w.conn.id == d)) [
          | inl own ↦ rw own (
              subst
                (λ c. lookup c (send v.state.net v.conn.id b).0 ≡ some (push box (bs ++ b ∷ [])))
                (same ∙ (==_iff w.conn.id d).0 own) (there ∙ ap (λ x. some x) together))
          | inr other ↦ rw other (
              send_other v.state.net v.conn.id d b (ap (λ c. c == d) same ∙ other)
              ∙ others
              ∙ ap (λ t. if t then some (push box bs) else lookup d w.state.net) other)
        ],
        entries,
        jobs,
      ),
    )
  where
    together : push (push box bs) (b ∷ []) ≡ push box (bs ++ b ∷ [])
    together = ap (λ q. record box { queue = q }) (append_assoc box.queue bs (b ∷ []))

pub nothing-Sent :
    (w v : World) (box : Outbox) (d c' s' : Text)
    → lookup w.conn.id w.state.net ≡ some box
    → v.state.net ≡ w.state.net
    → entry c' s' v.state.manager ≡ entry c' s' w.state.manager
    → v.jobs ≡ w.jobs
    → Sent w v box [] d c' s'
nothing-Sent w v box d c' s' p net entries jobs = (
  ap (lookup d) net ∙ elim (Bool-cases (w.conn.id == d)) [
    | inl own ↦ rw own (
        ap (λ c. lookup c w.state.net) (sym ((==_iff w.conn.id d).0 own))
        ∙ p
        ∙ ap (λ x. some x) (push-nil box))
    | inr other ↦ rw other refl
  ],
  entries,
  jobs,
)

pub challenge-Sent :
    (cfg : Config) (fresh : Text) (w : World) (box : Outbox) (bs : List RelayMessage)
    (d c' s' : Text)
    → lookup w.conn.id (challenge cfg fresh w).state.net ≡ some (push box bs)
    → (challenge cfg fresh w).state.manager ≡ w.state.manager
    → (challenge cfg fresh w).jobs ≡ w.jobs
    → Sent w (challenge cfg fresh w) box bs d c' s'
challenge-Sent cfg fresh w box bs d c' s' q manager jobs = (
  elim (Bool-cases (w.conn.id == d)) [
    | inl own ↦ rw own (
        ap (λ c. lookup c (challenge cfg fresh w).state.net) (sym ((==_iff w.conn.id d).0 own)) ∙ q)
    | inr other ↦ rw other (challenge-others cfg fresh w d other).0
  ],
  ap (entry c' s') manager,
  jobs,
)

-- The end of a refusal: CLOSED, after what was sent before.
pub close-Sent :
    (w v : World) (box : Outbox) (bs : List RelayMessage) (s reason why d c' s' : Text)
    (o : Option (World × Option Text))
    → reason ≡ why
    → o ≡ some (reply (closed s why) v)
    → v.conn.id ≡ w.conn.id
    → lookup w.conn.id v.state.net ≡ some (push box bs)
    → HasRoom 1 (push box bs)
    → Sent w v box bs d c' s'
    → (w' : World) × (o ≡ some (w', none)) × Sent w w' box (bs ++ closed s reason ∷ []) d c' s'
close-Sent w v box bs s reason why d c' s' o e done same q left before =
    let (none_failed, after) = reply-Sent w v box bs (closed s reason) d c' s' same q left before in
    (
      (reply (closed s reason) v).0,
      done
          ∙ ap (λ t. some (reply (closed s t) v)) (sym e)
          ∙ ap (λ f. some ((reply (closed s reason) v).0, f)) none_failed,
      after,
    )

-- Room for one message is left before anything was sent.
pub HasRoom-nothing : (box : Outbox) → HasRoom (1 + 1) box → HasRoom 1 (push box [])
HasRoom-nothing box room = record {
  is_open = room.is_open;
  running = room.running;
  room = omega (arith, room.room, length-append box.queue []);
}
