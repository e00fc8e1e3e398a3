-- ===== src/Plugin/Match/Traffic.antt =====
-- What the match of a message against a plugin's subscriptions means.
use congee.Prelude.{
  Text, bytes, In, any_of, any_of_iff, List, [], ◌∷◌, true, ◌≡◌, refl, sym, subst, ◌↔◌, inl, inr,
  arith, Bool-cases, ◌&&◌, ◌||◌,
}
use congee.Nostr.Filter.{Filter, has_search}
use congee.Plugin.Match.{
  TrafficSubscription, kinds_intersect, has_msg_type, tag_wanted, req_hits, match_intercept_req,
}

-- A filter that a plugin asks for: by a kind, by a text search, or by a tag.
pub data Wants (s : TrafficSubscription) (f : Filter) : Type 0 where
  by_kind : kinds_intersect s.kinds f.kinds ≡ true → Wants s f
  by_search : s.req_has_search ≡ true → has_search f ≡ true → Wants s f
  by_tag : (name : Text) → In name s.req_tag_names → tag_wanted f name ≡ true → Wants s f

Wants-iff :
    (s : TrafficSubscription) (f : Filter)
    → ((kinds_intersect s.kinds f.kinds
          || ((s.req_has_search && has_search f) || any_of (tag_wanted f) s.req_tag_names))
        ≡ true)
      ↔ Wants s f
Wants-iff s f = (to, from)
  where
    to :
        (kinds_intersect s.kinds f.kinds
            || ((s.req_has_search && has_search f) || any_of (tag_wanted f) s.req_tag_names))
          ≡ true
        → Wants s f
    to h = elim (Bool-cases (kinds_intersect s.kinds f.kinds)) [
      | inl k ↦ by_kind k
      | inr k ↦ elim (Bool-cases (s.req_has_search && has_search f)) [
        | inl q ↦ by_search (ground arith) (ground arith)
        | inr q ↦
            let (name, i, e) = (any_of_iff (tag_wanted f) s.req_tag_names).0 (ground arith) in
            by_tag name i e
      ]
    ]

    from :
        Wants s f
        → (kinds_intersect s.kinds f.kinds
            || ((s.req_has_search && has_search f) || any_of (tag_wanted f) s.req_tag_names))
          ≡ true
    from (by_kind k) = ground arith
    from (by_search a b) = ground arith
    from (by_tag name i e) =
        ground (arith, (any_of_iff (tag_wanted f) s.req_tag_names).1 (name, i, e))

req_hits_iff :
    (s : TrafficSubscription) (fs : List Filter)
    → (req_hits s fs ≡ true) ↔ ((f : Filter) × In f fs × Wants s f)
unfolding req_hits
req_hits_iff s fs = (to fs, λ (f, i, w). from fs f i w)
  where
    to : (fs : List Filter) → req_hits s fs ≡ true → (f : Filter) × In f fs × Wants s f
    to [] h = cc
    to (f ∷ fs) h =
        elim (Bool-cases (
          kinds_intersect s.kinds f.kinds
          || ((s.req_has_search && has_search f) || any_of (tag_wanted f) s.req_tag_names))) [
            | inl q ↦ (f, inl refl, (Wants-iff s f).0 q)
            | inr q ↦ let (g, i, w) = to fs (ground arith) in (g, inr i, w)
          ]

    from : (fs : List Filter) (f : Filter) → In f fs → Wants s f → req_hits s fs ≡ true
    from [] f i w = absurd i
    from (g ∷ fs) f (inl e) w =
        let k = (Wants-iff s g).1 (subst (Wants s) (sym e) w) in ground (arith, k)
    from (g ∷ fs) f (inr i) w = ground (arith, from fs f i w)

module _ (fs : List Filter) where
  Hit : TrafficSubscription → Type 0
  Hit s = (s.intercept_req ≡ true) × (has_msg_type s (bytes "REQ") ≡ true) × (req_hits s fs ≡ true)

  head-Hit :
      (s : TrafficSubscription) (subs : List TrafficSubscription)
      → Hit s
      → match_intercept_req (s ∷ subs) fs ≡ true
  unfolding Hit match_intercept_req
  head-Hit s subs (a, b, h) = rw (a, b, h) refl

-- A plugin intercepts a REQ exactly when one of its subscriptions intercepts REQs, names the type
-- `REQ`, and wants one of the filters by a kind, by a text search, or by a tag.
pub match_intercept_req_iff :
    (subs : List TrafficSubscription) (fs : List Filter)
    → (match_intercept_req subs fs ≡ true) ↔ (
        (s : TrafficSubscription) × (f : Filter) × In s subs
        × In f fs
        × (s.intercept_req ≡ true)
        × (has_msg_type s (bytes "REQ") ≡ true)
        × Wants s f)
unfolding match_intercept_req Hit
match_intercept_req_iff subs fs = (to subs, λ (s, f, i, j, a, b, w). from subs s f i j a b w)
  where
    to :
        (subs : List TrafficSubscription)
        → match_intercept_req subs fs ≡ true
        → (s : TrafficSubscription) × (f : Filter) × In s subs
          × In f fs
          × (s.intercept_req ≡ true)
          × (has_msg_type s (bytes "REQ") ≡ true)
          × Wants s f
    to [] h = cc
    to (s ∷ subs) h =
        elim (Bool-cases (s.intercept_req && (has_msg_type s (bytes "REQ") && req_hits s fs))) [
          | inl q ↦
              let (f, j, w) = (req_hits_iff s fs).0 (ground arith) in
              (s, f, inl refl, j, ground arith, ground arith, w)
          | inr q ↦ let (t, f, i, j, a, b, w) = to subs (ground arith) in (t, f, inr i, j, a, b, w)
        ]

    from :
        (subs : List TrafficSubscription) (s : TrafficSubscription) (f : Filter)
        → In s subs
        → In f fs
        → s.intercept_req ≡ true
        → has_msg_type s (bytes "REQ") ≡ true
        → Wants s f
        → match_intercept_req subs fs ≡ true
    from [] s f i j a b w = absurd i
    from (t ∷ subs) s f (inl e) j a b w =
        head-Hit fs t subs (subst (Hit fs) (sym e) (a, b, (req_hits_iff s fs).1 (f, j, w)))
    from (t ∷ subs) s f (inr i) j a b w = ground (arith, from subs s f i j a b w)
