-- ===== src/Relay/Group/Hook/Members.antt =====
-- Who is a member after the relay's own events, with the rows of the SQL store.
use congee.Prelude.{
  Text, bytes, ==_refl, All, keep, keep-append, text_lt, ℤ, ◌<ℤ◌, eqb_ℤ, eqb_ℤ_iff, List, [], ◌∷◌,
  ◌++◌, Bool, true, false, not, none, some, Result, success, ◌≡◌, refl, ap, ◌∙◌, ◌⊎◌, inl, inr,
  arith,
}
use congee.Nostr.Event.{Event}
use congee.Nostr.Kind.{classify_kind, is_ephemeral}
use congee.Nostr.Group.{kind_put_user, kind_remove_user}
use congee.Storage.Events.{
  replaced, has_event_id, save_event, row_before, first_row, latest_row, member_row, puts_user,
  is_group_member,
}
use congee.Relay.Group.Hook.{h_tag, p_tag}

-- A signed event is the draft under the relay's key.
abbrev pub Signs : Text → (Event → Result Event) → Type 0
Signs rpk sign =
    (ev s : Event)
    → sign ev ≡ success s
    → (s.pub_key ≡ rpk) × (s.created_at ≡ ev.created_at) × (s.kind ≡ ev.kind) × (s.tags ≡ ev.tags)

text_lt-asym : (a b : Text) → text_lt a b ≡ true → text_lt b a ≡ false
unfolding text_lt
text_lt-asym a [] h = cc
text_lt-asym [] (y ∷ t) h = refl
text_lt-asym (x ∷ s) (y ∷ t) h = ground (arith, text_lt-asym s t)

-- A row that is later than all others is the first.
latest_row-snoc :
    (s : Event) (rows : List Event)
    → All (λ e. e.created_at <ℤ s.created_at) rows
    → latest_row (rows ++ s ∷ []) ≡ some s
unfolding latest_row row_before
latest_row-snoc s [] h = refl
latest_row-snoc s (e ∷ rows) h = rw (latest_row, latest_row-snoc s rows h.1) (ap some (later e h.0))
  where
    later : (e : Event) → e.created_at <ℤ s.created_at → first_row e (some s) ≡ s
    later e lt = ground (arith, eqb_ℤ_iff s.created_at e.created_at)

keep-all : (p : Event → Bool) (rows : List Event) → ((e : Event) → p e ≡ true) → keep p rows ≡ rows
keep-all p [] h = refl
keep-all p (e ∷ rows) h = rw (h e) (ap (λ l. e ∷ l) (keep-all p rows h))

-- An event that replaces no other, and whose id is new, is added.
pub save_event-added :
    (engine conflict : Text) (s : Event) (rows : List Event)
    → is_ephemeral s.kind ≡ false
    → ((e : Event) → replaced s e ≡ false)
    → has_event_id s.id rows ≡ false
    → save_event engine conflict none s rows ≡ (rows ++ s ∷ [], none)
unfolding save_event
save_event-added engine conflict s rows lasting r absent =
    rw (lasting, keep-all (λ e. not (replaced s e)) rows (λ e. ap not (r e)), absent, save_event)
      refl

-- The two kinds of the relay's own events about a member.
abbrev pub IsMemberKind : ℤ → Type 0
IsMemberKind k = (k ≡ kind_put_user) ⊎ (k ≡ kind_remove_user)

pub member_kind-regular : (s : Event) → IsMemberKind s.kind → (e : Event) → replaced s e ≡ false
unfolding replaced classify_kind
member_kind-regular s (inl q) e = rw (q, replaced) refl
member_kind-regular s (inr q) e = rw (q, replaced) refl

member_row-own :
    (rpk gid pk : Text) (s : Event)
    → IsMemberKind s.kind
    → s.pub_key ≡ rpk
    → s.tags ≡ h_tag gid ∷ p_tag pk ∷ []
    → member_row rpk gid pk s ≡ true
unfolding bytes
member_row-own rpk gid pk s k q t =
    rw (t, q, ==_refl gid, ==_refl pk, ==_refl rpk, ==_refl (bytes "h"), ==_refl (bytes "p"))
      (ground (arith, eqb_ℤ_iff s.kind kind_put_user, eqb_ℤ_iff s.kind kind_remove_user))

-- The rows that say whether a user is a member are all before a time.
abbrev pub Before : Text → Text → Text → ℤ → List Event → Type 0
Before rpk gid pk now rows = All (λ e. e.created_at <ℤ now) (keep (member_row rpk gid pk) rows)

-- A row that is later than all others about a user decides.
pub later-member :
    (rpk gid pk : Text) (s : Event) (rows : List Event)
    → IsMemberKind s.kind
    → s.pub_key ≡ rpk
    → s.tags ≡ h_tag gid ∷ p_tag pk ∷ []
    → Before rpk gid pk s.created_at rows
    → is_group_member rpk gid pk (rows ++ s ∷ []) ≡ eqb_ℤ s.kind kind_put_user
unfolding is_group_member
later-member rpk gid pk s rows k q t before =
    let own : keep (member_row rpk gid pk) (s ∷ []) ≡ s ∷ [] =
      rw (member_row-own rpk gid pk s k q t) refl in
    ap (λ l. puts_user (latest_row l))
      (keep-append (member_row rpk gid pk) rows (s ∷ [])
        ∙ ap (λ l. keep (member_row rpk gid pk) rows ++ l) own)
    ∙ ap puts_user (latest_row-snoc s (keep (member_row rpk gid pk) rows) before)

-- Two rows about a user, of one time: the one with the smaller id decides.
pub tied-member :
    (rpk gid pk : Text) (put s : Event) (rows : List Event)
    → keep (member_row rpk gid pk) rows ≡ put ∷ []
    → IsMemberKind s.kind
    → s.pub_key ≡ rpk
    → s.tags ≡ h_tag gid ∷ p_tag pk ∷ []
    → put.created_at ≡ s.created_at
    → text_lt put.id s.id ≡ true
    → is_group_member rpk gid pk (rows ++ s ∷ []) ≡ eqb_ℤ put.kind kind_put_user
unfolding is_group_member latest_row row_before
tied-member rpk gid pk put s rows alone k q t time smaller =
    let own : keep (member_row rpk gid pk) (s ∷ []) ≡ s ∷ [] =
      rw (member_row-own rpk gid pk s k q t) refl in
    ap (λ l. puts_user (latest_row l))
      (keep-append (member_row rpk gid pk) rows (s ∷ [])
        ∙ ap (λ l. l ++ keep (member_row rpk gid pk) (s ∷ [])) alone
        ∙ ap (λ l. put ∷ l) own)
    ∙ ground (arith, eqb_ℤ_iff s.created_at put.created_at, text_lt-asym put.id s.id smaller)
