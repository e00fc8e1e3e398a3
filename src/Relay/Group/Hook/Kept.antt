-- ===== src/Relay/Group/Hook/Kept.antt =====
-- The rows about members, over the saves of other events.
use mathlib.Core.List.{append-nil}
use congee.Prelude.{
  Text, keep, keep-append, eqb_ℤ_iff, List, [], ◌∷◌, ◌++◌, Bool, true, false, not, Option, ◌≡◌,
  refl, ap, subst, ◌∙◌, inl, inr, arith, Bool-cases, Option-cases,
}
use congee.Nostr.Event.{Event}
use congee.Nostr.Kind.{is_ephemeral}
use congee.Nostr.Group.{kind_put_user, kind_remove_user}
use congee.Storage.Events.{replaced, has_event_id, save_event, member_row}
use congee.Storage.Events.Rows.{replaced-kind}
use congee.Relay.Group.Hook.Members.{IsMemberKind}

keep-keep :
    (p q : Event → Bool) (rows : List Event)
    → ((e : Event) → q e ≡ true → p e ≡ true)
    → keep q (keep p rows) ≡ keep q rows
keep-keep p q [] h = refl
keep-keep p q (e ∷ rows) h = ground (arith, h e, keep-keep p q rows h)

member_row-kind :
    (rpk gid pk : Text) (e : Event) → member_row rpk gid pk e ≡ true → IsMemberKind e.kind
member_row-kind rpk gid pk e h =
    ground (arith, eqb_ℤ_iff e.kind kind_put_user, eqb_ℤ_iff e.kind kind_remove_user)

member_row-other :
    (rpk gid pk : Text) (e : Event) → (¬ IsMemberKind e.kind) → member_row rpk gid pk e ≡ false
member_row-other rpk gid pk e h = elim (Bool-cases (member_row rpk gid pk e)) [
  | inl own ↦ absurd (h (member_row-kind rpk gid pk e own))
  | inr other ↦ other
]

-- An event of another kind leaves the rows about members.
pub save_event-members :
    (engine conflict rpk gid pk : Text) (fault : Option Text) (s : Event) (rows : List Event)
    → (¬ IsMemberKind s.kind)
    → keep (member_row rpk gid pk) (save_event engine conflict fault s rows).0
      ≡ keep (member_row rpk gid pk) rows
unfolding save_event
save_event-members engine conflict rpk gid pk fault s rows other =
    elim (Bool-cases (is_ephemeral s.kind)) [
      | inl short ↦ rw (short, save_event) refl
      | inr lasting ↦ elim (Option-cases fault) [
        | inr (x, failed) ↦ rw (lasting, failed, save_event) refl
        | inl fine ↦ elim (Bool-cases (has_event_id s.id (keep p rows))) [
          | inl there ↦ rw (lasting, fine, there, save_event) refl
          | inr absent ↦
              rw (lasting, fine, absent, save_event)
                (keep-append q (keep p rows) (s ∷ [])
                  ∙ ap (λ l. keep q (keep p rows) ++ l) none_of
                  ∙ append-nil (keep q (keep p rows))
                  ∙ keep-keep p q rows stays)
        ]
      ]
    ]
  where
    p : Event → Bool
    p e = not (replaced s e)

    q : Event → Bool
    q = member_row rpk gid pk

    none_of : keep q (s ∷ []) ≡ []
    none_of = rw (member_row-other rpk gid pk s other) refl

    stays : (e : Event) → q e ≡ true → p e ≡ true
    stays e own = elim (Bool-cases (replaced s e)) [
      | inl r ↦
          absurd
            (other (subst IsMemberKind (replaced-kind s e r) (member_row-kind rpk gid pk e own)))
      | inr kept ↦ ap not kept
    ]
