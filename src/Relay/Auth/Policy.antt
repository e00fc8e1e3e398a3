-- ===== src/Relay/Auth/Policy.antt =====
-- What an authenticated connection may publish, and the challenge that is sent to it.
use congee.Prelude.{
  Text, mem_int, In, is_empty, ℤ, List, [], ◌∷◌, true, false, none, ◌≡◌, refl, ◌↔◌, ◌⊎◌, inl, inr,
  arith, Bool-cases,
}
use congee.Nostr.Event.{Event}
use congee.Nostr.Filter.Matching.{text_gate}
use congee.Config.{Config}
use congee.Relay.Outbox.{Outbox}
use congee.Relay.Auth.{
  AuthState, relay_nip42_enabled, nip42_has_pubkey, validate_nip42_publish_policy,
  nip42_enqueue_auth_challenge,
}

no_kind : (k : ℤ) (l : List ℤ) → is_empty l ≡ true → mem_int k l ≡ false
no_kind k [] h = refl
no_kind k (j ∷ l) h = cc

-- What a connection may publish under the policy. The list of allowed keys is read only for the
-- kinds that need authentication.
pub validate_nip42_publish_policy_iff :
    (cfg : Config) (c : AuthState) (ev : Event)
    → (validate_nip42_publish_policy cfg c ev ≡ none) ↔ (
        (relay_nip42_enabled cfg ≡ false)
        ⊎ ((mem_int ev.kind cfg.require_auth_publish_kinds ≡ false)
            ⊎ ((nip42_has_pubkey c ev.pub_key ≡ true)
                × ((cfg.allowlisted_pubkeys ≡ []) ⊎ In ev.pub_key cfg.allowlisted_pubkeys))))
unfolding validate_nip42_publish_policy
validate_nip42_publish_policy_iff cfg c ev = ground (
  arith,
  no_kind ev.kind cfg.require_auth_publish_kinds,
  text_gate cfg.allowlisted_pubkeys ev.pub_key,
)

challenge-sent :
    (cfg : Config) (fresh : Text) (c : AuthState) (box : Outbox)
    → relay_nip42_enabled cfg ≡ true
    → c.nip42_auth_sent ≡ true
    → nip42_enqueue_auth_challenge cfg fresh c box ≡ (c, box, none)
unfolding nip42_enqueue_auth_challenge
challenge-sent cfg fresh c box on sent = rw (on, sent) refl

challenge-sends :
    (cfg : Config) (fresh : Text) (c : AuthState) (box : Outbox)
    → relay_nip42_enabled cfg ≡ true
    → (nip42_enqueue_auth_challenge cfg fresh c box).0.nip42_auth_sent ≡ true
unfolding nip42_enqueue_auth_challenge
challenge-sends cfg fresh c box on = elim (Bool-cases c.nip42_auth_sent) [
  | inl sent ↦ rw (on, sent) refl
  | inr unsent ↦ elim (Bool-cases (is_empty c.nip42_challenge)) [
    | inl missing ↦ elim (Bool-cases (is_empty fresh)) [
      | inl q ↦ ground arith
      | inr q ↦ ground arith
    ]
    | inr there ↦ ground arith
  ]
]

-- The challenge is sent at most once: a second call changes nothing and sends nothing.
pub nip42_enqueue_auth_challenge-once :
    (cfg : Config) (fresh fresh' : Text) (c : AuthState) (box box' : Outbox)
    → let c' = (nip42_enqueue_auth_challenge cfg fresh c box).0 in
      nip42_enqueue_auth_challenge cfg fresh' c' box' ≡ (c', box', none)
unfolding nip42_enqueue_auth_challenge
nip42_enqueue_auth_challenge-once cfg fresh fresh' c box box' =
    elim (Bool-cases (relay_nip42_enabled cfg)) [
      | inr off ↦ rw off refl
      | inl on ↦
          challenge-sent cfg fresh' (nip42_enqueue_auth_challenge cfg fresh c box).0 box' on
            (challenge-sends cfg fresh c box on)
    ]
