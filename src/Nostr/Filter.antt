-- ===== src/Nostr/Filter.antt =====
-- internal/nostr/filter.go: the filter of a subscription or a query, and which events it matches.
-- A pointer receiver is never nil at the calls, so a filter and an event are values.
pub mod Matching
use congee.Prelude.{
  Text, bytes, ◌==◌, mem_text, mem_int, trim_space, trim_prefix, is_empty, Map, ℤ, ltb_ℤ, List, [],
  ◌∷◌, Bool, true, false, not, ◌&&◌, ◌||◌, Option, none, some, if◌then◌else◌,
}
use congee.Nostr.Event.{Event}

pub record Filter : Type 0 where
  pub ids : List Text
  pub authors : List Text
  pub kinds : List ℤ
  pub since : Option ℤ
  pub until : Option ℤ
  pub limit : Option ℤ
  pub search : Option Text
  pub tag : Map (List Text)

unfoldable pub ptr_str : Option Text → Text
ptr_str none = []
ptr_str (some s) = s

unfoldable pub search_text : Filter → Text
unfolding ptr_str
search_text f = trim_space (ptr_str f.search)

unfoldable pub has_search : Filter → Bool
unfolding ptr_str
has_search f = not (is_empty (trim_space (ptr_str f.search)))

unfoldable pub without_search : Filter → Filter
without_search f = record f { search = none }

-- One turn of the loop of `eventTagMatches`: the tag has the name, and its first value is wanted.
unfoldable pub tag_hits : Text → List Text → List Text → Bool
tag_hits name want [] = false
tag_hits name want (n ∷ []) = false
tag_hits name want (n ∷ v ∷ r) = n == name && mem_text v want

unfoldable pub event_tag_matches : List (List Text) → Text → List Text → Bool
unfolding tag_hits
event_tag_matches [] name want = false
event_tag_matches (t ∷ tags) name want = tag_hits name want t || event_tag_matches tags name want

-- The loop over `f.Tag`.
unfoldable pub tags_match : List (List Text) → Map (List Text) → Bool
unfolding event_tag_matches
tags_match tags [] = true
tags_match tags ((key, want) ∷ m) =
    if is_empty want
    then false
    else if not (event_tag_matches tags (trim_prefix key (bytes "#")) want)
    then false
    else tags_match tags m

abbrev pub before_since : Option ℤ → ℤ → Bool
before_since none t = false
before_since (some s) t = ltb_ℤ t s

abbrev pub after_until : Option ℤ → ℤ → Bool
after_until none t = false
after_until (some u) t = ltb_ℤ u t

unfoldable pub matches : Filter → Event → Bool
unfolding tags_match
matches f e =
    if has_search f
    then false
    else if not (is_empty f.ids) && not (mem_text e.id f.ids)
    then false
    else if not (is_empty f.authors) && not (mem_text e.pub_key f.authors)
    then false
    else if not (is_empty f.kinds) && not (mem_int e.kind f.kinds)
    then false
    else if before_since f.since e.created_at
    then false
    else if after_until f.until e.created_at
    then false
    else tags_match e.tags f.tag

-- `filtersMatch` of internal/relay/subscription.go: any of the filters.
unfoldable pub filters_match : List Filter → Event → Bool
filters_match [] ev = false
filters_match (f ∷ filters) ev = matches f ev || filters_match filters ev
