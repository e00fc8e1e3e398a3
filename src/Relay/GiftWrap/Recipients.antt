-- ===== src/Relay/GiftWrap/Recipients.antt =====
-- Who sees a gift wrap: the recipients that its tags name, whatever the case of their keys.
use congee.Prelude.{
  Text, bytes, ◌==◌, ==_iff, ==_refl, equal_fold, to_lower, trim_space, mem_text, mem_text_iff, In,
  In-is_empty, List, [], ◌∷◌, true, Option, none, some, ◌≡◌, refl, ap, sym, ◌∙◌, subst, ◌↔◌, ◌⊎◌,
  inl, inr, arith, Bool-cases,
}
use congee.Nostr.Event.{Event}
use congee.Relay.GiftWrap.{
  valid_x_only_pub_key_hex, recipients_from, gift_wrap_recipient_pubkeys, folds_into,
  any_folds_into, gift_wrap_visible,
}

-- A `p` tag of the event with a valid key: the key as the tag has it, spaces and all.
pub record IsRecipient (tags : List (List Text)) (low : Text) : Type 0 where
  pub value : Text
  pub others : List Text
  pub tagged : In (bytes "p" ∷ value ∷ others) tags
  pub valid : valid_x_only_pub_key_hex (trim_space value) ≡ true
  pub same : to_lower (trim_space value) ≡ low

-- The key of a list that stands for a recipient.
KeyOf : List Text → Text → Type 0
KeyOf rs low = (r : Text) × In r rs × (to_lower r ≡ low)

IsRecipient-tail :
    {tags : List (List Text)} {low : Text} (tag : List Text)
    → IsRecipient tags low
    → IsRecipient (tag ∷ tags) low
IsRecipient-tail tag h = record {
  value = h.value;
  others = h.others;
  tagged = inr h.tagged;
  valid = h.valid;
  same = h.same;
}

taken-KeyOf :
    (pk : Text) (rs : List Text) (low : Text)
    → KeyOf (pk ∷ rs) low
    → (to_lower pk ≡ low) ⊎ KeyOf rs low
unfolding KeyOf
taken-KeyOf pk rs low (r, inl p, e) = inl (ap to_lower p ∙ e)
taken-KeyOf pk rs low (r, inr i, e) = inr (r, i, e)

head-IsRecipient :
    (n v : Text) (r : List Text) (tags : List (List Text)) (low : Text)
    → n ≡ bytes "p"
    → valid_x_only_pub_key_hex (trim_space v) ≡ true
    → to_lower (trim_space v) ≡ low
    → IsRecipient ((n ∷ v ∷ r) ∷ tags) low
head-IsRecipient n v r tags low p good e = record {
  value = v;
  others = r;
  tagged = inl (ap (λ x. x ∷ v ∷ r) p);
  valid = good;
  same = e;
}

-- What `recipients_from` finds is tagged and not seen before; what is tagged is found or seen.
recipients_from-IsRecipient :
    (seen : List Text) (tags : List (List Text)) (low : Text)
    → KeyOf (recipients_from seen tags) low
    → IsRecipient tags low
unfolding recipients_from KeyOf
recipients_from-IsRecipient seen [] low (r, i, e) = absurd i
recipients_from-IsRecipient seen ([] ∷ tags) low k =
    IsRecipient-tail [] (recipients_from-IsRecipient seen tags low k)
recipients_from-IsRecipient seen ((n ∷ []) ∷ tags) low k =
    IsRecipient-tail (n ∷ []) (recipients_from-IsRecipient seen tags low k)
recipients_from-IsRecipient seen ((n ∷ v ∷ r) ∷ tags) low k =
    let skip : KeyOf (recipients_from seen tags) low → IsRecipient ((n ∷ v ∷ r) ∷ tags) low =
      λ h. IsRecipient-tail (n ∷ v ∷ r) (recipients_from-IsRecipient seen tags low h) in
    elim (Bool-cases (n == bytes "p")) [
      | inr other ↦ skip (rw other at k)
      | inl p_tag ↦ elim (Bool-cases (valid_x_only_pub_key_hex (trim_space v))) [
        | inr bad ↦ skip (rw (p_tag, bad) at k)
        | inl good ↦ elim (Bool-cases (mem_text (to_lower (trim_space v)) seen)) [
          | inl old ↦ skip (rw (p_tag, good, old) at k)
          | inr new ↦ elim (taken-KeyOf (trim_space v) _ low (rw (p_tag, good, new) at k)) [
            | inl e ↦ head-IsRecipient n v r tags low ((==_iff n (bytes "p")).0 p_tag) good e
            | inr h ↦
                IsRecipient-tail (n ∷ v ∷ r)
                  (recipients_from-IsRecipient (to_lower (trim_space v) ∷ seen) tags low h)
          ]
        ]
      ]
    ]

-- A key is seen, or some key of the list stands for it.
Found : List Text → List Text → Text → Type 0
unfolding KeyOf
Found seen rs low = In low seen ⊎ KeyOf rs low

Found-take :
    (pk : Text) (seen rs : List Text) (low : Text)
    → Found (to_lower pk ∷ seen) rs low
    → Found seen (pk ∷ rs) low
unfolding Found KeyOf
Found-take pk seen rs low (inl (inl e)) = inr (pk, inl refl, e)
Found-take pk seen rs low (inl (inr i)) = inl i
Found-take pk seen rs low (inr (r, i, e)) = inr (r, inr i, e)

-- A valid key is found or seen, if the tag at the head names it.
Found-head :
    (seen : List Text) (v : Text) (r : List Text) (tags : List (List Text)) (low : Text)
    → valid_x_only_pub_key_hex (trim_space v) ≡ true
    → to_lower (trim_space v) ≡ low
    → Found seen (recipients_from seen ((bytes "p" ∷ v ∷ r) ∷ tags)) low
unfolding recipients_from Found KeyOf
Found-head seen v r tags low good e = elim (Bool-cases (mem_text (to_lower (trim_space v)) seen)) [
  | inl old ↦ inl (subst (λ x. In x seen) e ((mem_text_iff (to_lower (trim_space v)) seen).0 old))
  | inr new ↦ rw (==_refl (bytes "p"), good, new) (inr (trim_space v, inl refl, e))
]

-- What the later tags name is found or seen as well.
Found-tail :
    (seen : List Text) (n v : Text) (r : List Text) (tags : List (List Text)) (low : Text)
    → ((seen' : List Text) → Found seen' (recipients_from seen' tags) low)
    → Found seen (recipients_from seen ((n ∷ v ∷ r) ∷ tags)) low
unfolding recipients_from
Found-tail seen n v r tags low ih = elim (Bool-cases (n == bytes "p")) [
  | inr other ↦ rw other (ih seen)
  | inl p_tag ↦ elim (Bool-cases (valid_x_only_pub_key_hex (trim_space v))) [
    | inr bad ↦ rw (p_tag, bad) (ih seen)
    | inl good ↦ elim (Bool-cases (mem_text (to_lower (trim_space v)) seen)) [
      | inl old ↦ rw (p_tag, good, old) (ih seen)
      | inr new ↦
          rw (p_tag, good, new)
            (Found-take (trim_space v) seen _ low (ih (to_lower (trim_space v) ∷ seen)))
    ]
  ]
]

recipients_from_complete :
    (tags : List (List Text)) (low : Text) (value : Text) (others : List Text)
    → In (bytes "p" ∷ value ∷ others) tags
    → valid_x_only_pub_key_hex (trim_space value) ≡ true
    → to_lower (trim_space value) ≡ low
    → (seen : List Text) → Found seen (recipients_from seen tags) low
unfolding recipients_from
recipients_from_complete [] low v r i good e seen = absurd i
recipients_from_complete (tag ∷ tags) low v r (inl p) good e seen =
    subst (λ x. Found seen (recipients_from seen (x ∷ tags)) low) (sym p)
      (Found-head seen v r tags low good e)
recipients_from_complete ([] ∷ tags) low v r (inr i) good e seen =
    recipients_from_complete tags low v r i good e seen
recipients_from_complete ((n ∷ []) ∷ tags) low v r (inr i) good e seen =
    recipients_from_complete tags low v r i good e seen
recipients_from_complete ((n ∷ w ∷ s) ∷ tags) low v r (inr i) good e seen =
    Found-tail seen n w s tags low (recipients_from_complete tags low v r i good e)

folds_into_iff : (pk : Text) (rs : List Text) → (folds_into pk rs ≡ true) ↔ KeyOf rs (to_lower pk)
unfolding folds_into KeyOf equal_fold
folds_into_iff pk rs = (to rs, λ (r, i, e). from rs r i e)
  where
    to :
        (rs : List Text)
        → folds_into pk rs ≡ true
        → (r : Text) × In r rs × (to_lower r ≡ to_lower pk)
    to [] h = cc
    to (r ∷ rs) h = elim (Bool-cases (to_lower pk == to_lower r)) [
      | inl q ↦ (r, inl refl, sym ((==_iff (to_lower pk) (to_lower r)).0 q))
      | inr q ↦ let (a, i, e) = to rs (ground arith) in (a, inr i, e)
    ]

    from :
        (rs : List Text) (r : Text) → In r rs → to_lower r ≡ to_lower pk → folds_into pk rs ≡ true
    from [] r i e = absurd i
    from (x ∷ rs) r (inl p) e = rw ((==_iff (to_lower pk) (to_lower x)).1 (sym (ap to_lower p ∙ e)))
    from (x ∷ rs) r (inr i) e = ground (arith, from rs r i e)

any_folds_into_iff :
    (keys rs : List Text)
    → (any_folds_into keys rs ≡ true) ↔ ((pk : Text) × In pk keys × KeyOf rs (to_lower pk))
unfolding any_folds_into
any_folds_into_iff keys rs = (to keys, λ (pk, i, k). from keys pk i k)
  where
    to :
        (keys : List Text)
        → any_folds_into keys rs ≡ true
        → (pk : Text) × In pk keys × KeyOf rs (to_lower pk)
    to [] h = cc
    to (x ∷ keys) h = elim (Bool-cases (folds_into x rs)) [
      | inl q ↦ (x, inl refl, (folds_into_iff x rs).0 q)
      | inr q ↦ let (a, i, e) = to keys (ground arith) in (a, inr i, e)
    ]

    from :
        (keys : List Text) (pk : Text)
        → In pk keys
        → KeyOf rs (to_lower pk)
        → any_folds_into keys rs ≡ true
    from [] r i e = absurd i
    from (x ∷ keys) pk (inl p) k =
        rw ((folds_into_iff x rs).1 (subst (λ y. KeyOf rs (to_lower y)) (sym p) k))
    from (x ∷ keys) pk (inr i) k = ground (arith, from keys pk i k)

recipient-KeyOf :
    (tags : List (List Text)) (low : Text)
    → IsRecipient tags low
    → KeyOf (recipients_from [] tags) low
unfolding Found KeyOf
recipient-KeyOf tags low h =
    elim (recipients_from_complete tags low h.value h.others h.tagged h.valid h.same []) [
      | inl seen ↦ absurd seen
      | inr k ↦ k
    ]

abbrev or_empty : Option (List Text) → List Text
or_empty none = []
or_empty (some keys) = keys

-- A connection sees a gift wrap exactly when one of its authenticated keys is, in lower case, a
-- recipient that a `p` tag of the event names.
pub gift_wrap_visible_iff :
    (authed : Option (List Text)) (ev : Event)
    → (gift_wrap_visible authed ev ≡ true) ↔ (
        (keys : List Text) × (pk : Text) × (authed ≡ some keys)
        × In pk keys
        × IsRecipient ev.tags (to_lower pk))
unfolding gift_wrap_visible gift_wrap_recipient_pubkeys KeyOf
gift_wrap_visible_iff none ev = (λ h. ground arith, λ (keys, pk, e, i, r). cc)
gift_wrap_visible_iff (some keys) ev = (
  λ h.
      let (pk, i, k) = (any_folds_into_iff keys (recipients_from [] ev.tags)).0 (ground arith) in
      (keys, pk, refl, i, recipients_from-IsRecipient [] ev.tags (to_lower pk) k),
  λ (keys', pk, e, i, r).
      let k = recipient-KeyOf ev.tags (to_lower pk) r in
      let j : In pk keys = subst (λ o. In pk (or_empty o)) (sym e) i in
      rw
        (
          In-is_empty k.0 (recipients_from [] ev.tags) k.1,
          In-is_empty pk keys j,
          (any_folds_into_iff keys (recipients_from [] ev.tags)).1 (pk, j, k),
        )
        refl,
)
