-- ===== src/Relay/Auth/Keys.antt =====
-- How a connection comes to be authenticated.
use congee.Prelude.{
  Text, bytes, ◌==◌, ==_iff, is_empty, lookup-insert, ℤ, pos, ◌≤ℤ◌, ◌-ℤ◌, ltb_ℤ, eqb_ℤ, eqb_ℤ_iff,
  IsInt64, wrap64_of_IsInt64, sub64, neg64, true, false, Option, none, Result, success, failure,
  ◌≡◌, refl, ap, ◌∙◌, ◌↔◌, ◌⊎◌, inl, inr, arith, Bool-cases, Option-cases, if◌then◌else◌,
}
use congee.Nostr.Event.{Event}
use congee.Config.{Config, nip42_created_at_skew}
use congee.Relay.Auth.{
  AuthState, relay_nip42_enabled, nip42_has_pubkey, nip42_add_pubkey, tag_first, auth_event_kind,
  created_at_distance, check_relay_tag, check_challenge, verify_nip42_auth_event, handle_nip42_auth,
}

-- The keys after one more is authenticated.
nip42_add_pubkey-has :
    (pk q : Text) (c : AuthState)
    → nip42_has_pubkey (nip42_add_pubkey pk c) q ≡ (if pk == q then true else nip42_has_pubkey c q)
unfolding nip42_has_pubkey nip42_add_pubkey
nip42_add_pubkey-has pk q c = ground (arith, lookup-insert pk q tt c.nip42_pubkeys)

-- The distance is exact where the difference and its negation are int64.
pub created_at_distance-exact :
    (created_at now : ℤ)
    → IsInt64 (created_at -ℤ now)
    → IsInt64 (now -ℤ created_at)
    → created_at_distance created_at now
      ≡ (if ltb_ℤ (created_at -ℤ now) (pos 0) then now -ℤ created_at else created_at -ℤ now)
unfolding created_at_distance sub64 neg64 ◌-ℤ◌
created_at_distance-exact created_at now h k =
    ground (arith, wrap64_of_IsInt64 (created_at -ℤ now) h, wrap64_of_IsInt64 (now -ℤ created_at) k)

-- A second way that is never taken adds nothing.
unchanged : {P Q : Type 0} → ¬ Q → P ↔ (P ⊎ Q)
unchanged {P} {Q} none_other = (λ p. inl p, back)
  where
    back : P ⊎ Q → P
    back (inl p) = p
    back (inr q) = absurd (none_other q)

module _ (parse_url : Text → Result Text) (verify_sig : Event → Option Text) where
  -- An event that answers a challenge: of the right kind, signed, with the relay's address and the
  -- challenge in its tags, and made within the skew of the clock.
  pub record Answers (cfg : Config) (challenge : Text) (now : ℤ) (ev : Event) : Type 0 where
    pub kind : ev.kind ≡ auth_event_kind
    pub signed : verify_sig ev ≡ none
    pub url : Text
    pub here : parse_url cfg.relay_url ≡ success url
    pub named : parse_url (tag_first ev.tags (bytes "relay")) ≡ success url
    pub not_empty : is_empty url ≡ false
    pub drawn : is_empty challenge ≡ false
    pub answered : tag_first ev.tags (bytes "challenge") ≡ challenge
    pub near : created_at_distance ev.created_at now ≤ℤ nip42_created_at_skew cfg

  relay_tag-success :
      (cfg : Config) (ev : Event) (want got : Text)
      → parse_url cfg.relay_url ≡ success want
      → parse_url (tag_first ev.tags (bytes "relay")) ≡ success got
      → (check_relay_tag parse_url verify_sig cfg ev ≡ none)
        ↔ ((is_empty got ≡ false) × (got ≡ want))
  unfolding check_relay_tag
  relay_tag-success cfg ev want got p q =
      rw (p, q, check_relay_tag) (ground (arith, ==_iff got want))

  check_challenge_iff :
      (cfg : Config) (ev : Event) (challenge : Text) (now : ℤ)
      → (check_challenge parse_url verify_sig cfg ev challenge now ≡ none) ↔ (
          (is_empty challenge ≡ false)
          × (tag_first ev.tags (bytes "challenge") ≡ challenge)
          × (created_at_distance ev.created_at now ≤ℤ nip42_created_at_skew cfg))
  unfolding check_challenge
  check_challenge_iff cfg ev challenge now =
      ground (arith, ==_iff (tag_first ev.tags (bytes "challenge")) challenge)

  check_relay_tag_iff :
      (cfg : Config) (ev : Event)
      → (check_relay_tag parse_url verify_sig cfg ev ≡ none) ↔ (
          (url : Text) × (parse_url cfg.relay_url ≡ success url)
          × (parse_url (tag_first ev.tags (bytes "relay")) ≡ success url)
          × (is_empty url ≡ false))
  unfolding check_relay_tag
  check_relay_tag_iff cfg ev =
      cases (parse_url cfg.relay_url) (parse_url (tag_first ev.tags (bytes "relay"))) refl refl
    where
      cases :
          (r q : Result Text)
          → parse_url cfg.relay_url ≡ r
          → parse_url (tag_first ev.tags (bytes "relay")) ≡ q
          → (check_relay_tag parse_url verify_sig cfg ev ≡ none) ↔ (
              (url : Text) × (parse_url cfg.relay_url ≡ success url)
              × (parse_url (tag_first ev.tags (bytes "relay")) ≡ success url)
              × (is_empty url ≡ false))
      cases (failure e) q a b = rw (a, check_relay_tag) (λ h. cc, λ (url, x, y, z). cc)
      cases (success want) (failure e) a b =
          rw (a, b, check_relay_tag) (λ h. cc, λ (url, x, y, z). cc)
      cases (success want) (success got) a b = (
        λ h.
            let (full, same) = (relay_tag-success cfg ev want got a b).0 h in
            (want, a, b ∙ ap success same, rw same at full),
        λ (url, x, y, z). (relay_tag-success cfg ev want got a b).1 (ground (arith, a, b, x, y, z)),
      )

  -- The check of an event passes exactly when the event answers the challenge: kind 22242, signed,
  -- the relay's address and a challenge that is not empty in its tags, and made within the skew.
  pub verify_nip42_auth_event_iff :
      (cfg : Config) (ev : Event) (challenge : Text) (now : ℤ)
      → (verify_nip42_auth_event parse_url verify_sig cfg ev challenge now ≡ none)
        ↔ Answers cfg challenge now ev
  unfolding verify_nip42_auth_event
  verify_nip42_auth_event_iff cfg ev challenge now =
      elim (Bool-cases (eqb_ℤ ev.kind auth_event_kind)) [
        | inr other ↦
            rw other (λ h. cc, λ a. ground (arith, (eqb_ℤ_iff ev.kind auth_event_kind).1 a.kind))
        | inl kind ↦ elim (Option-cases (verify_sig ev)) [
          | inr (e, q) ↦
              rw (kind, q, verify_nip42_auth_event) (λ h. cc, λ a. ground (arith, a.signed))
          | inl signed ↦ elim (Option-cases (check_relay_tag parse_url verify_sig cfg ev)) [
            | inr (e, q) ↦
                rw (kind, signed, verify_nip42_auth_event, q)
                  (
                    λ h. cc,
                    λ a. ground (
                      arith,
                      (check_relay_tag_iff cfg ev).1 (a.url, a.here, a.named, a.not_empty),
                    ),
                  )
            | inl q ↦
                let (url, here, named, full) = (check_relay_tag_iff cfg ev).0 q in
                rw (kind, signed, verify_nip42_auth_event, q)
                  (
                    λ h.
                        let (drawn, answered, near) =
                          (check_challenge_iff cfg ev challenge now).0 h in
                        record {
                          kind = (eqb_ℤ_iff ev.kind auth_event_kind).0 kind;
                          signed = signed;
                          url = url;
                          here = here;
                          named = named;
                          not_empty = full;
                          drawn = drawn;
                          answered = answered;
                          near = near;
                        },
                    λ a. (check_challenge_iff cfg ev challenge now).1 (a.drawn, a.answered, a.near),
                  )
          ]
        ]
      ]

  added :
      (cfg : Config) (now : ℤ) (ev : Event) (c : AuthState) (pk : Text)
      → Answers cfg c.nip42_challenge now ev
      → (nip42_has_pubkey (nip42_add_pubkey ev.pub_key c) pk ≡ true) ↔ (
          (nip42_has_pubkey c pk ≡ true)
          ⊎ ((ev.pub_key ≡ pk) × (true ≡ true) × Answers cfg c.nip42_challenge now ev))
  added cfg now ev c pk a =
      rw (nip42_add_pubkey-has ev.pub_key pk c) (elim (Bool-cases (ev.pub_key == pk)) [
        | inl q ↦ rw q (λ _. inr ((==_iff ev.pub_key pk).0 q, refl, a), λ _. refl)
        | inr q ↦ rw q (unchanged λ (same, _, _). ground (arith, same, (==_iff ev.pub_key pk).1))
      ])

  -- After an `AUTH` a key is authenticated exactly when it was before, or it is the event's author,
  -- authentication is enabled, and the event answers the connection's own challenge.
  pub handle_nip42_auth-has :
      (cfg : Config) (now : ℤ) (ev : Event) (c : AuthState) (pk : Text)
      → (nip42_has_pubkey (handle_nip42_auth parse_url verify_sig cfg now ev c).0 pk ≡ true) ↔ (
          (nip42_has_pubkey c pk ≡ true)
          ⊎ ((ev.pub_key ≡ pk)
              × (relay_nip42_enabled cfg ≡ true)
              × Answers cfg c.nip42_challenge now ev))
  unfolding handle_nip42_auth
  handle_nip42_auth-has cfg now ev c pk = elim (Bool-cases (relay_nip42_enabled cfg)) [
    | inr off ↦ rw off (unchanged λ (same, on, a). ground (arith, on, off))
    | inl on ↦ elim (Bool-cases (is_empty c.nip42_challenge)) [
      | inl none_drawn ↦ rw (on, none_drawn) (unchanged λ (same, _, a). ground (arith, a.drawn))
      | inr drawn ↦
          elim (Option-cases
            (verify_nip42_auth_event parse_url verify_sig cfg ev c.nip42_challenge now)) [
              | inr (e, q) ↦
                  rw (on, drawn, q, handle_nip42_auth)
                    (unchanged λ (same, _, a).
                      ground
                        (arith, q, (verify_nip42_auth_event_iff cfg ev c.nip42_challenge now).1 a))
              | inl q ↦
                  rw (on, drawn, q, handle_nip42_auth)
                    (added cfg now ev c pk
                      ((verify_nip42_auth_event_iff cfg ev c.nip42_challenge now).0 q))
            ]
    ]
  ]
