-- ===== src/Relay/Group/Hook/Answered.antt =====
-- What the hook makes of a request to join or to leave, with the rows of the SQL store.
use congee.Prelude.{
  Text, is_empty, All, ◌<ℤ◌, keep, text_lt, ℤ, eqb_ℤ, List, [], ◌∷◌, ◌++◌, Bool, true, false,
  Option, none, some, Result, success, failure, ◌≡◌, refl, ap, sym, subst, ◌∙◌, inl, inr, arith,
  if◌then◌else◌,
}
use congee.Config.{Config}
use congee.Nostr.Event.{Event}
use congee.Nostr.Kind.{classify_kind, is_ephemeral}
use congee.Nostr.Group.{
  group_h_tag, kind_create_group, kind_put_user, kind_remove_user, kind_join_request,
  kind_leave_req,
}
use congee.Storage.Events.{has_event_id, save_event, member_row, is_group_member}
use congee.Relay.Nip01.{World}
use congee.Relay.Group.{nip29_enabled}
use congee.Relay.Group.Hook.{
  draft, h_tag, p_tag, saved_event, signed_event, publish_own, after_create, unless_known,
  relay_put_user, relay_remove_user, ensure_group_metadata, post_store_hook,
}
use congee.Relay.Group.Hook.Members.{
  Signs, Before, IsMemberKind, member_kind-regular, save_event-added, later-member, tied-member,
}
use congee.Relay.Group.Hook.Kept.{save_event-members}

-- The kinds of a request and of the relay's answer to it.
abbrev pub request_kind : Bool → ℤ
request_kind joins = if joins then kind_join_request else kind_leave_req

abbrev pub answer_kind : Bool → ℤ
answer_kind joins = if joins then kind_put_user else kind_remove_user

-- The relay's own event about the author of a request, before it is signed.
abbrev pub answer : Bool → ℤ → Event → Event
answer joins now ev = draft now (answer_kind joins) (h_tag (group_h_tag ev) ∷ p_tag ev.pub_key ∷ [])

answer_kind-IsMemberKind : (joins : Bool) → IsMemberKind (answer_kind joins)
answer_kind-IsMemberKind true = inl refl
answer_kind-IsMemberKind false = inr refl

member_kind-lasting : (k : ℤ) → IsMemberKind k → is_ephemeral k ≡ false
unfolding is_ephemeral classify_kind
member_kind-lasting k (inl q) = rw (q, is_ephemeral) refl
member_kind-lasting k (inr q) = rw (q, is_ephemeral) refl

-- `faults` is what the driver or the writer answers to the save of an event, if it fails.
module _ (engine conflict rpk : Text) (faults : Event → Option Text) (sign : Event → Result Event)
    (visible : List Event → Text → Event → Bool) (signs : Signs rpk sign) where
  abbrev pub save : Event → List Event → List Event × Option Text
  save ev rows = save_event engine conflict (faults ev) ev rows

  saved_event-rows :
      (s : Event) (w : World) (o : List Event × Option Text)
      → (saved_event sign save visible s w o).0.1 ≡ o.0
  saved_event-rows s w (st, some e) = refl
  saved_event-rows s w (st, none) = refl

  signed_event-members :
      (gid pk : Text) (ev : Event) (w : World) (rows : List Event) (o : Result Event)
      → (¬ IsMemberKind ev.kind)
      → sign ev ≡ o
      → keep (member_row rpk gid pk) (signed_event sign save visible (w, rows) o).0.1
        ≡ keep (member_row rpk gid pk) rows
  signed_event-members gid pk ev w rows (failure e) other q = refl
  signed_event-members gid pk ev w rows (success s) other q =
      let (author, time, same, tags) = signs ev s q in
      ap (keep (member_row rpk gid pk)) (saved_event-rows s w (save s rows))
      ∙ save_event-members engine conflict rpk gid pk (faults s) s rows
          (λ k. other (subst IsMemberKind same k))

  publish_own-members :
      (gid pk : Text) (ev : Event) (x : World × List Event)
      → (¬ IsMemberKind ev.kind)
      → keep (member_row rpk gid pk) (publish_own sign save visible ev x).0.1
        ≡ keep (member_row rpk gid pk) x.1
  unfolding publish_own
  publish_own-members gid pk ev (w, rows) other =
      signed_event-members gid pk ev w rows (sign ev) other refl

  after_create-members :
      (now : ℤ) (g gid pk : Text) (o : (World × List Event) × Option Text)
      → keep (member_row rpk gid pk) (after_create sign save visible now g o).0.1
        ≡ keep (member_row rpk gid pk) o.0.1
  after_create-members now g gid pk (x, some e) = refl
  after_create-members now g gid pk (x, none) = publish_own-members gid pk _ x (λ k. ground arith)

  unless_known-members :
      (now : ℤ) (g gid pk : Text) (x : World × List Event) (o : Result (Option Event))
      → keep (member_row rpk gid pk) (unless_known sign save visible now g x o).0.1
        ≡ keep (member_row rpk gid pk) x.1
  unless_known-members now g gid pk x (failure e) = refl
  unless_known-members now g gid pk x (success (some md)) = refl
  unless_known-members now g gid pk x (success none) =
      after_create-members now g gid pk
        (publish_own sign save visible (draft now kind_create_group (h_tag g ∷ [])) x)
      ∙ publish_own-members gid pk (draft now kind_create_group (h_tag g ∷ [])) x
          (λ k. ground arith)

  abbrev change : Bool → ℤ → Event → World × List Event → (World × List Event) × Option Text
  change true = relay_put_user sign save visible
  change false = relay_remove_user sign save visible

  saved-added :
      (s : Event) (rows : List Event)
      → IsMemberKind s.kind
      → faults s ≡ none
      → has_event_id s.id rows ≡ false
      → save s rows ≡ (rows ++ s ∷ [], none)
  saved-added s rows k fine absent =
      ap (λ f. save_event engine conflict f s rows) fine
      ∙ save_event-added engine conflict s rows (member_kind-lasting s.kind k)
          (member_kind-regular s k) absent

  change-rows :
      (joins : Bool) (now : ℤ) (ev s : Event) (x : World × List Event)
      → is_empty (group_h_tag ev) ≡ false
      → sign (answer joins now ev) ≡ success s
      → (change joins now ev x).0.1 ≡ (save s x.1).0
  unfolding relay_put_user relay_remove_user publish_own
  change-rows true now ev s (w, rows) named q =
      rw (named, relay_put_user, q) (saved_event-rows s w (save s rows))
  change-rows false now ev s (w, rows) named q =
      rw (named, relay_remove_user, q) (saved_event-rows s w (save s rows))

  module _ (known : Text → Text → List Event → Result (Option Event)) where
    -- What the rows are when the hook comes to its answer.
    abbrev pub with_metadata : ℤ → Event → World → List Event → World × List Event
    with_metadata now ev w rows =
        (ensure_group_metadata sign save visible known now rpk (group_h_tag ev) (w, rows)).0

    with_metadata-members :
        (now : ℤ) (ev : Event) (gid pk : Text) (w : World) (rows : List Event)
        → keep (member_row rpk gid pk) (with_metadata now ev w rows).1
          ≡ keep (member_row rpk gid pk) rows
    unfolding ensure_group_metadata
    with_metadata-members now ev gid pk w rows =
        unless_known-members now (group_h_tag ev) gid pk (w, rows) (known rpk (group_h_tag ev) rows)

    -- The rows after the hook of an event that is stored.
    abbrev pub hooked : Config → ℤ → ℤ → Event → World → List Event → List Event
    hooked cfg now now' ev w rows =
        (post_store_hook sign save visible known cfg (some rpk) now now' ev true (w, rows)).0.1

    post_store_hook-change :
        (cfg : Config) (joins : Bool) (now now' : ℤ) (ev : Event) (w : World) (rows : List Event)
        → nip29_enabled cfg ≡ true
        → is_empty (group_h_tag ev) ≡ false
        → ev.kind ≡ request_kind joins
        → hooked cfg now now' ev w rows ≡ (change joins now' ev (with_metadata now ev w rows)).0.1
    unfolding post_store_hook
    post_store_hook-change cfg true now now' ev w rows on named k =
        let a : eqb_ℤ ev.kind kind_join_request ≡ true = ap (λ z. eqb_ℤ z kind_join_request) k in
        let b : eqb_ℤ ev.kind kind_leave_req ≡ false = ap (λ z. eqb_ℤ z kind_leave_req) k in
        ground arith
    post_store_hook-change cfg false now now' ev w rows on named k =
        let a : eqb_ℤ ev.kind kind_join_request ≡ false = ap (λ z. eqb_ℤ z kind_join_request) k in
        let b : eqb_ℤ ev.kind kind_leave_req ≡ true = ap (λ z. eqb_ℤ z kind_leave_req) k in
        ground arith

    hooked-added :
        (cfg : Config) (joins : Bool) (now now' : ℤ) (ev s : Event) (w : World) (rows : List Event)
        → nip29_enabled cfg ≡ true
        → is_empty (group_h_tag ev) ≡ false
        → ev.kind ≡ request_kind joins
        → sign (answer joins now' ev) ≡ success s
        → faults s ≡ none
        → has_event_id s.id (with_metadata now ev w rows).1 ≡ false
        → hooked cfg now now' ev w rows ≡ (with_metadata now ev w rows).1 ++ s ∷ []
    hooked-added cfg joins now now' ev s w rows on named k q fine absent =
        let (author, time, same, tags) = signs _ s q in
        post_store_hook-change cfg joins now now' ev w rows on named k
        ∙ change-rows joins now' ev s (with_metadata now ev w rows) named q
        ∙ ap (λ (o : List Event × Option Text). o.0)
            (saved-added s (with_metadata now ev w rows).1
              (subst IsMemberKind (sym same) (answer_kind-IsMemberKind joins)) fine absent)

    kind_put_user-answer : (joins : Bool) → eqb_ℤ (answer_kind joins) kind_put_user ≡ joins
    kind_put_user-answer true = refl
    kind_put_user-answer false = refl

    -- The hook after a stored join or leave request, with NIP-29 on and a key of the relay, where
    -- the clock is past all of the relay's earlier events about the user and the group, and the
    -- relay's event in answer is signed under its key and saved: the driver does not fail and its
    -- id is new. After a join request the user is a member of the group that the request names,
    -- after a leave request not.
    pub post_store_hook-member :
        (cfg : Config) (joins : Bool) (now now' : ℤ) (ev s : Event) (w : World) (rows : List Event)
        → nip29_enabled cfg ≡ true
        → is_empty (group_h_tag ev) ≡ false
        → ev.kind ≡ request_kind joins
        → Before rpk (group_h_tag ev) ev.pub_key now' rows
        → sign (answer joins now' ev) ≡ success s
        → faults s ≡ none
        → has_event_id s.id (with_metadata now ev w rows).1 ≡ false
        → is_group_member rpk (group_h_tag ev) ev.pub_key (hooked cfg now now' ev w rows) ≡ joins
    post_store_hook-member cfg joins now now' ev s w rows on named k before q fine absent =
        let (author, time, same, tags) = signs _ s q in
        let gid = group_h_tag ev in
        let kept = with_metadata-members now ev gid ev.pub_key w rows in
        ap (is_group_member rpk gid ev.pub_key)
          (hooked-added cfg joins now now' ev s w rows on named k q fine absent)
        ∙ later-member rpk gid ev.pub_key s (with_metadata now ev w rows).1
            (subst IsMemberKind (sym same) (answer_kind-IsMemberKind joins)) author tags
            (subst (λ t. Before rpk gid ev.pub_key t (with_metadata now ev w rows).1) (sym time)
              (subst (All (λ e. e.created_at <ℤ now')) (sym kept) before))
        ∙ ap (λ z. eqb_ℤ z kind_put_user) same
        ∙ kind_put_user-answer joins

    -- A user is a member by one event of the relay, and the hook comes to their leave request
    -- within the second of it, with NIP-29 on and a key of the relay. The relay's event in answer
    -- is signed under its key and saved: the driver does not fail and its id is new. Where that id
    -- is the larger of the two, the user is a member still.
    pub post_store_hook-same_second :
        (cfg : Config) (now : ℤ) (ev put s : Event) (w : World) (rows : List Event)
        → nip29_enabled cfg ≡ true
        → is_empty (group_h_tag ev) ≡ false
        → ev.kind ≡ kind_leave_req
        → keep (member_row rpk (group_h_tag ev) ev.pub_key) rows ≡ put ∷ []
        → put.kind ≡ kind_put_user
        → sign (answer false put.created_at ev) ≡ success s
        → faults s ≡ none
        → has_event_id s.id (with_metadata now ev w rows).1 ≡ false
        → text_lt put.id s.id ≡ true
        → is_group_member rpk (group_h_tag ev) ev.pub_key (hooked cfg now put.created_at ev w rows)
          ≡ true
    post_store_hook-same_second cfg now ev put s w rows on named k alone p q fine absent smaller =
        let (author, time, same, tags) = signs _ s q in
        let gid = group_h_tag ev in
        ap (is_group_member rpk gid ev.pub_key)
          (hooked-added cfg false now put.created_at ev s w rows on named k q fine absent)
        ∙ tied-member rpk gid ev.pub_key put s (with_metadata now ev w rows).1
            (with_metadata-members now ev gid ev.pub_key w rows ∙ alone) (inr same) author tags
            (sym time) smaller
        ∙ ap (λ z. eqb_ℤ z kind_put_user) p
