-- ===== src/Storage/Events/Replaced.antt =====
-- What a save keeps of the rows, told by the ranges of kinds of NIP-01.
use congee.Prelude.{
  Text, ◌==◌, ==_iff, In, In-keep, In-append_cases, In-append_left, In-append_right, any_of_iff,
  keep, ℤ, pos, ◌≤ℤ◌, ◌<ℤ◌, eqb_ℤ_iff, List, [], ◌∷◌, true, false, not, none, ◌≡◌, refl, ap, ◌↔◌,
  ◌⊎◌, inl, inr, arith, Bool-cases,
}
use congee.Nostr.Event.{Event}
use congee.Nostr.Kind.{
  KindClass, regular, replaceable, ephemeral, addressable, classify_kind, is_ephemeral,
}
use congee.Storage.Events.{
  extract_d_tag, same_author_kind, replaced_by, replaced, has_event_id, save_event,
}

abbrev pub IsReplaceable : ℤ → Type 0
IsReplaceable k = (k ≡ pos 0) ⊎ (k ≡ pos 3) ⊎ ((pos 10000 ≤ℤ k) × (k <ℤ pos 20000))

abbrev pub IsEphemeral : ℤ → Type 0
IsEphemeral k = (pos 20000 ≤ℤ k) × (k <ℤ pos 30000)

abbrev pub IsAddressable : ℤ → Type 0
IsAddressable k = (pos 30000 ≤ℤ k) × (k <ℤ pos 40000)

-- The first event takes the place of the second: one author, one kind that is replaceable, or that is
-- addressable with one value of the first `d` tag.
abbrev pub Supersedes : Event → Event → Type 0
Supersedes ev e =
    (e.pub_key ≡ ev.pub_key)
    × (e.kind ≡ ev.kind)
    × (IsReplaceable ev.kind
        ⊎ (IsAddressable ev.kind × (extract_d_tag e.tags ≡ extract_d_tag ev.tags)))

-- The kinds of a class.
abbrev IsOfClass : KindClass → ℤ → Type 0
IsOfClass regular k = (¬ IsReplaceable k) × (¬ IsEphemeral k) × (¬ IsAddressable k)
IsOfClass replaceable k = IsReplaceable k × (¬ IsAddressable k) × (¬ IsEphemeral k)
IsOfClass ephemeral k = IsEphemeral k × (¬ IsReplaceable k) × (¬ IsAddressable k)
IsOfClass addressable k = IsAddressable k × (¬ IsReplaceable k) × (¬ IsEphemeral k)

classify_kind-IsOfClass : (k : ℤ) → IsOfClass (classify_kind k) k
unfolding classify_kind
classify_kind-IsOfClass k = ground (arith, eqb_ℤ_iff k (pos 0), eqb_ℤ_iff k (pos 3))

same_iff :
    (ev e : Event)
    → (same_author_kind ev e ≡ true) ↔ ((e.pub_key ≡ ev.pub_key) × (e.kind ≡ ev.kind))
same_iff ev e = ground (arith, ==_iff e.pub_key ev.pub_key, eqb_ℤ_iff e.kind ev.kind)

replaced_by_iff :
    (c : KindClass) (ev e : Event)
    → IsOfClass c ev.kind
    → (replaced_by c ev e ≡ true) ↔ Supersedes ev e
replaced_by_iff regular ev e (a, b, c) =
    (λ h. cc, λ (p, k, o). elim o [ inl r ↦ absurd (a r) | inr (r, d) ↦ absurd (c r) ])
replaced_by_iff ephemeral ev e (a, b, c) =
    (λ h. cc, λ (p, k, o). elim o [ inl r ↦ absurd (b r) | inr (r, d) ↦ absurd (c r) ])
replaced_by_iff replaceable ev e (a, b, c) =
    let (to, from) = same_iff ev e in
    (λ h. let (p, k) = to h in (p, k, inl a), λ (p, k, o). from (p, k))
replaced_by_iff addressable ev e (a, b, c) =
    let (to, from) = same_iff ev e in
    let (to', from') = ==_iff (extract_d_tag e.tags) (extract_d_tag ev.tags) in
    (
      λ h. let (p, k) = to (ground arith) in (p, k, inr (a, to' (ground arith))),
      λ (p, k, o). elim o [ inl r ↦ absurd (b r) | inr (r, d) ↦ rw (from (p, k), from' d) refl ],
    )

replaced_iff : (ev e : Event) → (replaced ev e ≡ true) ↔ Supersedes ev e
unfolding replaced
replaced_iff ev e = replaced_by_iff (classify_kind ev.kind) ev e (classify_kind-IsOfClass ev.kind)

kept_iff : (ev e : Event) → (not (replaced ev e) ≡ true) ↔ (¬ Supersedes ev e)
kept_iff ev e =
    let (to, from) = replaced_iff ev e in
    (
      λ h s. cc (from s, h),
      λ n. elim (Bool-cases (replaced ev e)) [ inl r ↦ absurd (n (to r)) | inr k ↦ ap not k ],
    )

lasting : (k : ℤ) → (¬ IsEphemeral k) → is_ephemeral k ≡ false
unfolding is_ephemeral classify_kind
lasting k h = ground arith

module _ (ev : Event) (rows : List Event) where
  abbrev others : List Event
  others = keep (λ e. not (replaced ev e)) rows

  In-others : (e : Event) → In e others ↔ (In e rows × (¬ Supersedes ev e))
  In-others e =
      let (to, from) = In-keep (λ x. not (replaced ev x)) e rows in
      let (to', from') = kept_iff ev e in
      (λ i. let (j, k) = to i in (j, to' k), λ (j, n). from (j, from' n))

  id-absent :
      ((e : Event) → In e rows → e.id ≡ ev.id → Supersedes ev e) → has_event_id ev.id others ≡ false
  unfolding has_event_id
  id-absent h = elim (Bool-cases (has_event_id ev.id others)) [
    | inr absent ↦ absent
    | inl there ↦
        let (e, i, q) = (any_of_iff (λ x. x.id == ev.id) others).0 there in
        let (j, n) = (In-others e).0 i in absurd (n (h e j ((==_iff e.id ev.id).0 q)))
  ]

  -- A save of an event of a kind that is not ephemeral, where the driver does not fail and no row has
  -- the event's id but one that the event replaces. It succeeds; and the rows after it are the event
  -- and those before it, but for the events of its author and kind where the kind is replaceable, and
  -- of its author, kind and first `d` tag where it is addressable, whatever the times of the two.
  pub save_event-replaces :
      (engine conflict : Text) (e : Event)
      → (¬ IsEphemeral ev.kind)
      → ((x : Event) → In x rows → x.id ≡ ev.id → Supersedes ev x)
      → ((save_event engine conflict none ev rows).1 ≡ none)
        × (In e (save_event engine conflict none ev rows).0
            ↔ ((In e rows × (¬ Supersedes ev e)) ⊎ (ev ≡ e)))
  unfolding save_event
  save_event-replaces engine conflict e kind h =
      let (to, from) = In-others e in
      rw (lasting ev.kind kind, id-absent h, save_event)
        (
          refl,
          (
            λ i. elim (In-append_cases e others (ev ∷ []) i) [
              | inl j ↦ inl (to j)
              | inr (inl q) ↦ inr q
              | inr (inr j) ↦ absurd j
            ],
            λ o. elim o [
              | inl s ↦ In-append_left e others (ev ∷ []) (from s)
              | inr q ↦ In-append_right e others (ev ∷ []) (inl q)
            ],
          ),
        )
