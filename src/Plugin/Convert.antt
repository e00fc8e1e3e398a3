-- ===== src/Plugin/Convert.antt =====
-- internal/plugin/convert.go, instance.go: filters on their way to a plugin and back. A slice is
-- copied, which a list is not, and no entry of a list of the wire is nil.
pub mod RoundTrip
use congee.Prelude.{
  ℕ, ◌-◌, ◌%◌, ◌^◌, Text, bytes, eqb, ltb, length, is_empty, insert, Map, ℤ, pos, negsuc, List, [],
  ◌∷◌, map, Option, none, some, if◌then◌else◌,
}
use congee.Nostr.Filter.{Filter, search_text}

-- sdk/plugin: the filter that the host works with.
pub record SdkFilter : Type 0 where
  pub ids : List Text
  pub authors : List Text
  pub kinds : List ℤ
  pub since : Option ℤ
  pub until : Option ℤ
  pub limit : Option ℤ
  pub search : Text
  pub tags : Map (List Text)

-- The message `Filter` of the plugin's protocol: its kinds and its limit are int32.
pub record WireFilter : Type 0 where
  pub ids : List Text
  pub authors : List Text
  pub kinds : List ℤ
  pub since : Option ℤ
  pub until : Option ℤ
  pub limit : Option ℤ
  pub search : Text
  pub tag_filters : List (Text × List Text)

-- `int32(k)`
unfoldable pub int32 : ℤ → ℤ
int32 (pos n) = let b = n % 2 ^ 32 in if ltb b (2 ^ 31) then pos b else negsuc (2 ^ 32 - 1 - b)
int32 (negsuc n) = let b = n % 2 ^ 32 in if ltb b (2 ^ 31) then negsuc b else pos (2 ^ 32 - 1 - b)

unfoldable pub strings_trim_hash : Text → Text
strings_trim_hash [] = []
strings_trim_hash (c ∷ []) = c ∷ []
strings_trim_hash (c ∷ d ∷ []) = if eqb c b'#' then d ∷ [] else c ∷ d ∷ []
strings_trim_hash (c ∷ d ∷ e ∷ k) = c ∷ d ∷ e ∷ k

unfoldable pub with_hash : Text → Text
with_hash key = if eqb (length key) 1 then b'#' ∷ key else key

-- A loop that fills a new map from an old one, with each key renamed.
unfoldable pub fill {ℓ} : {V : Type ℓ} → (Text → Text) → Map V → Map V → Map V
unfolding insert
fill rename [] out = out
fill rename ((k, v) ∷ m) out = fill rename m (insert (rename k) v out)

unfoldable pub nostr_filter_to_sdk : Filter → SdkFilter
unfolding fill strings_trim_hash search_text
nostr_filter_to_sdk f = record {
  ids = f.ids;
  authors = f.authors;
  kinds = f.kinds;
  since = f.since;
  until = f.until;
  limit = f.limit;
  search = search_text f;
  tags = fill strings_trim_hash f.tag [];
}

unfoldable pub sdk_filter_to_nostr : SdkFilter → Filter
unfolding fill with_hash
sdk_filter_to_nostr f = record {
  ids = f.ids;
  authors = f.authors;
  kinds = f.kinds;
  since = f.since;
  until = f.until;
  limit = f.limit;
  search = if is_empty f.search then none else some f.search;
  tag = fill with_hash f.tags [];
}

abbrev pub map_option {ℓ} : {A : Type ℓ} → (A → A) → Option A → Option A
map_option f none = none
map_option f (some a) = some (f a)

unfoldable pub filter_to_v1 : SdkFilter → WireFilter
unfolding int32
filter_to_v1 f = record {
  ids = f.ids;
  authors = f.authors;
  kinds = map int32 f.kinds;
  since = f.since;
  until = f.until;
  limit = map_option int32 f.limit;
  search = f.search;
  tag_filters = f.tags;
}

-- One turn of the loop of `filtersFromV1`.
unfoldable pub filter_from_v1 : WireFilter → SdkFilter
unfolding fill
filter_from_v1 p = record {
  ids = p.ids;
  authors = p.authors;
  kinds = p.kinds;
  since = p.since;
  until = p.until;
  limit = p.limit;
  search = p.search;
  tags = fill (λ name. name) p.tag_filters [];
}

unfoldable pub nostr_filters_to_sdk : List Filter → List SdkFilter
unfolding nostr_filter_to_sdk
nostr_filters_to_sdk = map nostr_filter_to_sdk

unfoldable pub sdk_filters_to_nostr : List SdkFilter → List Filter
unfolding sdk_filter_to_nostr
sdk_filters_to_nostr = map sdk_filter_to_nostr

unfoldable pub filters_to_v1 : List SdkFilter → List WireFilter
unfolding filter_to_v1
filters_to_v1 = map filter_to_v1

unfoldable pub filters_from_v1 : List WireFilter → List SdkFilter
unfolding filter_from_v1
filters_from_v1 = map filter_from_v1

-- `cloneFilters`
unfoldable pub clone_filters : List Filter → List Filter
unfolding nostr_filter_to_sdk sdk_filter_to_nostr
clone_filters = map (λ f. sdk_filter_to_nostr (nostr_filter_to_sdk f))
