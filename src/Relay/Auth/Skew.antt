-- ===== src/Relay/Auth/Skew.antt =====
-- How far from the clock an authentication event may be made.
use congee.Prelude.{
  ◌-◌, ◌^◌, Text, ℤ, pos, negsuc, ◌≤ℤ◌, ◌-ℤ◌, ltb_ℤ, eqb_ℤ, eqb_ℤ_iff, IsInt64, wrap64, sub64,
  neg64, false, none, Option, Result, ◌≡◌, refl, ◌↔◌, ◌⊎◌, inl, inr, arith, Bool-cases,
  if◌then◌else◌,
}
use congee.Nostr.Event.{Event}
use congee.Config.{Config, nip42_created_at_skew}
use congee.Relay.Auth.{created_at_distance, verify_nip42_auth_event}
use congee.Relay.Auth.Keys.{created_at_distance-exact, verify_nip42_auth_event_iff}

-- -2^63
abbrev pub least : ℤ
least = negsuc (2 ^ 63 - 1)

-- Within the skew of the clock, on either side, or 2^63 seconds before it.
abbrev pub IsNear : ℤ → ℤ → Type 0
IsNear skew diff = ((pos 0 -ℤ skew ≤ℤ diff) × (diff ≤ℤ skew)) ⊎ (diff ≡ least)

skew-positive : (cfg : Config) → pos 1 ≤ℤ nip42_created_at_skew cfg
unfolding nip42_created_at_skew
skew-positive cfg = ground arith

distance-least :
    (created_at now : ℤ) → created_at -ℤ now ≡ least → created_at_distance created_at now ≡ least
unfolding created_at_distance sub64 neg64 wrap64 ◌-ℤ◌
distance-least created_at now e = rw e refl

swapped : (a b : ℤ) → IsInt64 (a -ℤ b) → (eqb_ℤ (a -ℤ b) least ≡ false) → IsInt64 (b -ℤ a)
unfolding ◌-ℤ◌
swapped a b h other = ground arith

IsNear-iff :
    (a b skew : ℤ)
    → pos 1 ≤ℤ skew
    → eqb_ℤ (a -ℤ b) least ≡ false
    → ((if ltb_ℤ (a -ℤ b) (pos 0) then b -ℤ a else a -ℤ b) ≤ℤ skew) ↔ IsNear skew (a -ℤ b)
unfolding ◌-ℤ◌
IsNear-iff a b skew s other = ground (arith, eqb_ℤ_iff (a -ℤ b) least)

distance_iff :
    (created_at now skew : ℤ)
    → IsInt64 (created_at -ℤ now)
    → pos 1 ≤ℤ skew
    → (created_at_distance created_at now ≤ℤ skew) ↔ IsNear skew (created_at -ℤ now)
distance_iff created_at now skew h s = elim (Bool-cases (eqb_ℤ (created_at -ℤ now) least)) [
  | inl q ↦
      let e = (eqb_ℤ_iff (created_at -ℤ now) least).0 q in
      rw (distance-least created_at now e) (λ _. inr e, λ _. omega arith)
  | inr other ↦
      rw (created_at_distance-exact created_at now h (swapped created_at now h other))
        (IsNear-iff created_at now skew s other)
]

module _ (parse_url : Text → Result Text) (verify_sig : Event → Option Text) where
  -- An event that passes the check at one time passes it at another, whose difference to the event's
  -- time fits 64 bits, exactly when it was made within the skew of that time, before or after, or
  -- when it was made 2^63 seconds before: the difference is then its own negation in int64.
  pub verify_nip42_auth_event-IsNear :
      (cfg : Config) (ev : Event) (challenge : Text) (then_at now : ℤ)
      → verify_nip42_auth_event parse_url verify_sig cfg ev challenge then_at ≡ none
      → IsInt64 (ev.created_at -ℤ now)
      → (verify_nip42_auth_event parse_url verify_sig cfg ev challenge now ≡ none)
        ↔ IsNear (nip42_created_at_skew cfg) (ev.created_at -ℤ now)
  verify_nip42_auth_event-IsNear cfg ev challenge then_at now passed h =
      let a =
        (verify_nip42_auth_event_iff parse_url verify_sig cfg ev challenge then_at).0 passed in
      let (to, from) = verify_nip42_auth_event_iff parse_url verify_sig cfg ev challenge now in
      let (near, distance) =
        distance_iff ev.created_at now (nip42_created_at_skew cfg) h (skew-positive cfg) in
      (
        λ q. near (to q).near,
        λ n. from (record {
          kind = a.kind;
          signed = a.signed;
          url = a.url;
          here = a.here;
          named = a.named;
          not_empty = a.not_empty;
          drawn = a.drawn;
          answered = a.answered;
          near = distance n;
        }),
      )
