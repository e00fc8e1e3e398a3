-- ===== src/Nostr/Filter/Matching.antt =====
-- What a filter means, told without its loops, and that `matches` decides it.
use congee.Prelude.{
  Text, bytes, ==_iff, mem_text, mem_text_iff, ==_refl, mem_int, eqb_ℤ_iff, trim_space, trim_prefix,
  In, All, is_empty, Map, ℤ, ◌≤ℤ◌, List, [], ◌∷◌, true, false, not, ◌&&◌, Option, none, some, ◌≡◌,
  refl, ◌⊎◌, ◌↔◌, inl, inr, arith, Bool-cases,
}
use congee.Nostr.Event.{Event}
use congee.Nostr.Filter.{
  Filter, ptr_str, has_search, tag_hits, event_tag_matches, tags_match, before_since, after_until,
  matches, filters_match,
}

-- Some tag has the name, and a first value among those wanted.
abbrev pub HasTag : List (List Text) → Text → List Text → Type 0
HasTag tags name want = (v : Text) × (r : List Text) × In (name ∷ v ∷ r) tags × In v want

-- An event obeys a filter: every condition that is set holds, and no text is searched for.
pub record Satisfies (f : Filter) (e : Event) : Type 0 where
  pub no_search : trim_space (ptr_str f.search) ≡ []
  pub ids : (f.ids ≡ []) ⊎ In e.id f.ids
  pub authors : (f.authors ≡ []) ⊎ In e.pub_key f.authors
  pub kinds : (f.kinds ≡ []) ⊎ In e.kind f.kinds
  pub since : (s : ℤ) → f.since ≡ some s → s ≤ℤ e.created_at
  pub until : (u : ℤ) → f.until ≡ some u → e.created_at ≤ℤ u
  pub tag : All (λ t. HasTag e.tags (trim_prefix t.0 (bytes "#")) t.1) f.tag

mem_int_iff : (k : ℤ) (l : List ℤ) → (mem_int k l ≡ true) ↔ In k l
mem_int_iff k [] = ground arith
mem_int_iff k (j ∷ l) = ground (arith, eqb_ℤ_iff j k, mem_int_iff k l)

tag_hits-HasTag :
    (name : Text) (want : List Text) (t : List Text)
    → tag_hits name want t ≡ true
    → (v : Text) × (r : List Text) × (t ≡ name ∷ v ∷ r) × In v want
unfolding tag_hits
tag_hits-HasTag name want [] h = cc
tag_hits-HasTag name want (n ∷ []) h = cc
tag_hits-HasTag name want (n ∷ v ∷ r) h =
    (v, r, ground (arith, ==_iff n name), ground (arith, mem_text_iff v want))

event_tag_matches_iff :
    (tags : List (List Text)) (name : Text) (want : List Text)
    → (event_tag_matches tags name want ≡ true) ↔ HasTag tags name want
unfolding event_tag_matches
event_tag_matches_iff tags name want = (to tags, λ (v, r, i, w). from tags v r i w)
  where
    to : (tags : List (List Text)) → event_tag_matches tags name want ≡ true → HasTag tags name want
    to [] h = cc
    to (t ∷ tags) h = elim (Bool-cases (tag_hits name want t)) [
      | inl hit ↦ let (v, r, e, w) = tag_hits-HasTag name want t hit in (v, r, inl e, w)
      | inr miss ↦ let (v, r, i, w) = to tags (ground arith) in (v, r, inr i, w)
    ]

    from :
        (tags : List (List Text)) (v : Text) (r : List Text)
        → In (name ∷ v ∷ r) tags
        → In v want
        → event_tag_matches tags name want ≡ true
    from [] v r i w = absurd i
    from (t ∷ tags) v r (inl e) w = rw (e, tag_hits, ==_refl name, (mem_text_iff v want).1 w)
    from (t ∷ tags) v r (inr i) w = ground (arith, from tags v r i w)

abbrev TagsHeld : List (List Text) → Map (List Text) → Type 0
TagsHeld tags = All (λ e. HasTag tags (trim_prefix e.0 (bytes "#")) e.1)

tags_match-TagsHeld :
    (tags : List (List Text)) (m : Map (List Text)) → tags_match tags m ≡ true → TagsHeld tags m
unfolding tags_match
tags_match-TagsHeld tags [] h = tt
tags_match-TagsHeld tags ((key, want) ∷ m) h = (
  (event_tag_matches_iff tags (trim_prefix key (bytes "#")) want).0 (ground arith),
  tags_match-TagsHeld tags m (ground arith),
)

TagsHeld-tags_match :
    (tags : List (List Text)) (m : Map (List Text)) → TagsHeld tags m → tags_match tags m ≡ true
unfolding tags_match
TagsHeld-tags_match tags [] h = refl
TagsHeld-tags_match tags ((key, []) ∷ m) ((v, r, i, w), h) = absurd w
TagsHeld-tags_match tags ((key, (x ∷ xs)) ∷ m) (held, h) =
    rw ((event_tag_matches_iff tags (trim_prefix key (bytes "#")) (x ∷ xs)).1 held)
      (TagsHeld-tags_match tags m h)

-- A list condition lets an event through if it is empty or contains the event's value.
pub text_gate :
    (l : List Text) (s : Text)
    → ((not (is_empty l) && not (mem_text s l)) ≡ false) ↔ ((l ≡ []) ⊎ In s l)
text_gate [] s = (λ _. inl refl, λ _. refl)
text_gate (x ∷ l) s = (λ h. inr ((mem_text_iff s (x ∷ l)).0 (ground arith)), from)
  where
    from :
        ((x ∷ l) ≡ []) ⊎ In s (x ∷ l) → (not (is_empty (x ∷ l)) && not (mem_text s (x ∷ l))) ≡ false
    from (inl e) = cc
    from (inr h) = rw ((mem_text_iff s (x ∷ l)).1 h)

int_gate :
    (l : List ℤ) (k : ℤ) → ((not (is_empty l) && not (mem_int k l)) ≡ false) ↔ ((l ≡ []) ⊎ In k l)
int_gate [] k = (λ _. inl refl, λ _. refl)
int_gate (x ∷ l) k = (λ h. inr ((mem_int_iff k (x ∷ l)).0 (ground arith)), from)
  where
    from :
        ((x ∷ l) ≡ []) ⊎ In k (x ∷ l) → (not (is_empty (x ∷ l)) && not (mem_int k (x ∷ l))) ≡ false
    from (inl e) = cc
    from (inr h) = rw ((mem_int_iff k (x ∷ l)).1 h)

search_gate : (f : Filter) → (has_search f ≡ false) ↔ (trim_space (ptr_str f.search) ≡ [])
unfolding has_search
search_gate f = ground arith

since_gate : (o : Option ℤ) (t : ℤ) → (before_since o t ≡ false) ↔ ((s : ℤ) → o ≡ some s → s ≤ℤ t)
since_gate none t = (λ _ s e. cc, λ _. refl)
since_gate (some x) t = (λ h s e. ground arith, λ h. ground (arith, h x refl))

until_gate : (o : Option ℤ) (t : ℤ) → (after_until o t ≡ false) ↔ ((u : ℤ) → o ≡ some u → t ≤ℤ u)
until_gate none t = (λ _ s e. cc, λ _. refl)
until_gate (some x) t = (λ h s e. ground arith, λ h. ground (arith, h x refl))

-- The filter matches an event exactly when the event obeys it: ids, authors and kinds each empty
-- or containing the event's, `since ≤ created_at ≤ until` where set, a wanted value under every
-- tag name of the filter, and no text searched for.
pub matches-iff-Satisfies : (f : Filter) (e : Event) → (matches f e ≡ true) ↔ Satisfies f e
unfolding matches
matches-iff-Satisfies f e = (
  λ h. record {
    no_search = (search_gate f).0 (ground arith);
    ids = (text_gate f.ids e.id).0 (ground arith);
    authors = (text_gate f.authors e.pub_key).0 (ground arith);
    kinds = (int_gate f.kinds e.kind).0 (ground arith);
    since = (since_gate f.since e.created_at).0 (ground arith);
    until = (until_gate f.until e.created_at).0 (ground arith);
    tag = tags_match-TagsHeld e.tags f.tag (ground arith);
  },
  λ s.
      rw
        (
          (search_gate f).1 s.no_search,
          (text_gate f.ids e.id).1 s.ids,
          (text_gate f.authors e.pub_key).1 s.authors,
          (int_gate f.kinds e.kind).1 s.kinds,
          (since_gate f.since e.created_at).1 s.since,
          (until_gate f.until e.created_at).1 s.until,
        )
        (TagsHeld-tags_match e.tags f.tag s.tag),
)

-- Filters are joined by OR.
pub filters_match_iff :
    (fs : List Filter) (e : Event)
    → (filters_match fs e ≡ true) ↔ ((f : Filter) × In f fs × Satisfies f e)
unfolding filters_match
filters_match_iff fs e = (to fs, λ (f, i, s). from fs f i s)
  where
    to : (fs : List Filter) → filters_match fs e ≡ true → (f : Filter) × In f fs × Satisfies f e
    to [] h = cc
    to (f ∷ fs) h = elim (Bool-cases (matches f e)) [
      | inl m ↦ (f, inl refl, (matches-iff-Satisfies f e).0 m)
      | inr m ↦ let (g, i, s) = to fs (ground arith) in (g, inr i, s)
    ]

    from : (fs : List Filter) (f : Filter) → In f fs → Satisfies f e → filters_match fs e ≡ true
    from [] f i s = absurd i
    from (g ∷ fs) f (inl p) s = rw (p, (matches-iff-Satisfies f e).1 s)
    from (g ∷ fs) f (inr i) s = ground (arith, from fs f i s)
