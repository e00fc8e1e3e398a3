-- ===== src/Plugin/Convert/RoundTrip.antt =====
-- A filter that a plugin hands back unchanged is the one that it was asked about.
use mathlib.Core.List.{append-nil, append_assoc}
use congee.Prelude.{
  ℕ, ◌<◌, ◌≤◌, ◌^◌, Text, trim_space, ◌==◌, ==_iff, is_empty, lookup, insert, Map, Distinct, All, ℤ,
  pos, negsuc, pos_part, neg_part, List, [], ◌∷◌, ◌++◌, map, false, Option, none, some, ◌≡◌, refl,
  ap, ◌∙◌, sym, subst, inl, inr, arith, Bool-cases, if◌then◌else◌,
}
use congee.Nostr.Filter.{Filter, search_text, ptr_str}
use congee.Plugin.Convert.{
  int32, strings_trim_hash, with_hash, fill, nostr_filter_to_sdk, sdk_filter_to_nostr, map_option,
  filter_to_v1, filter_from_v1, nostr_filters_to_sdk, sdk_filters_to_nostr, filters_to_v1,
  filters_from_v1,
}

-- A key of a filter's tags: a hash and one byte.
abbrev pub IsTagKey : Text → Type 0
IsTagKey key = (c : ℕ) × (key ≡ b'#' ∷ c ∷ [])

-- -2^31 ≤ a < 2^31
abbrev pub IsInt32 : ℤ → Type 0
IsInt32 a = (pos_part a < 2 ^ 31) × (neg_part a ≤ 2 ^ 31)

abbrev pub IsTrimmed : Text → Type 0
IsTrimmed s = (is_empty s ≡ false) × (trim_space s ≡ s)

abbrev pub AllOption : {A : Type 0} → (A → Type 0) → Option A → Type 0
AllOption P none = Unit
AllOption P (some a) = P a

-- Kinds and limits in 32 bits, tags under distinct keys of one letter, and search text without white
-- space around it, if there is any.
pub record IsPlain (f : Filter) : Type 0 where
  pub kinds : All IsInt32 f.kinds
  pub limit : AllOption IsInt32 f.limit
  pub search : AllOption IsTrimmed f.search
  pub keys : All (λ (e : Text × List Text). IsTagKey e.0) f.tag
  pub distinct : Distinct f.tag

int32_of_IsInt32 : (a : ℤ) → IsInt32 a → int32 a ≡ a
unfolding int32
int32_of_IsInt32 (pos n) h = ground arith
int32_of_IsInt32 (negsuc n) h = ground arith

map-int32 : (l : List ℤ) → All IsInt32 l → map int32 l ≡ l
map-int32 [] h = refl
map-int32 (a ∷ l) h = λ i. int32_of_IsInt32 a h.0 i ∷ map-int32 l h.1 i

map_option-int32 : (o : Option ℤ) → AllOption IsInt32 o → map_option int32 o ≡ o
map_option-int32 none h = refl
map_option-int32 (some a) h = ap some (int32_of_IsInt32 a h)

-- Without their hashes the keys are still distinct.
trimmed_eq :
    (j k : Text) → IsTagKey j → IsTagKey k → (strings_trim_hash j == strings_trim_hash k) ≡ (j == k)
unfolding strings_trim_hash ◌==◌
trimmed_eq j k (c, p) (d, q) = rw (p, q) refl

hash_back : (k : Text) → IsTagKey k → with_hash (strings_trim_hash k) ≡ k
unfolding strings_trim_hash with_hash
hash_back k (c, p) = rw p refl

module _ {V : Type 0} where
  abbrev rename_keys : (Text → Text) → Map V → Map V
  rename_keys rename [] = []
  rename_keys rename ((k, v) ∷ m) = (rename k, v) ∷ rename_keys rename m

  insert_new : (k : Text) (v : V) (m : Map V) → lookup k m ≡ none → insert k v m ≡ m ++ (k, v) ∷ []
  unfolding insert lookup
  insert_new k v [] h = refl
  insert_new k v ((j, w) ∷ m) h = elim (Bool-cases (j == k)) [
    | inl same ↦ cc (rw same at h)
    | inr other ↦ rw other (ap (λ l. (j, w) ∷ l) (insert_new k v m (ground arith)))
  ]

  lookup-append_none :
      (k : Text) (a b : Map V)
      → lookup k (a ++ b) ≡ none
      → (lookup k a ≡ none) × (lookup k b ≡ none)
  unfolding lookup
  lookup-append_none k [] b h = (refl, h)
  lookup-append_none k ((j, w) ∷ a) b h = ground (arith, lookup-append_none k a b)

  absent : (k j : Text) (v : V) (m : Map V) → lookup j ((k, v) ∷ m) ≡ none → (j == k) ≡ false
  unfolding lookup
  absent k j v m h = ground (arith, ==_iff j k, ==_iff k j)

  Distinct-front :
      (out : Map V) (k : Text) (v : V) (m : Map V)
      → Distinct (out ++ (k, v) ∷ m)
      → lookup k out ≡ none
  unfolding lookup
  Distinct-front [] k v m d = refl
  Distinct-front ((j, w) ∷ out) k v m d =
      rw (absent k j v m (lookup-append_none j out ((k, v) ∷ m) d.0).1)
        (Distinct-front out k v m d.1)

  fill-append :
      (rename : Text → Text) (m out : Map V)
      → Distinct (out ++ rename_keys rename m)
      → fill rename m out ≡ out ++ rename_keys rename m
  unfolding fill
  fill-append rename [] out d = sym (append-nil out)
  fill-append rename ((k, v) ∷ m) out d =
      let assoc = append_assoc out ((rename k, v) ∷ []) (rename_keys rename m) in
      ap (fill rename m)
        (insert_new (rename k) v out (Distinct-front out (rename k) v (rename_keys rename m) d))
      ∙ fill-append rename m (out ++ (rename k, v) ∷ []) (subst Distinct (sym assoc) d)
      ∙ assoc

  lookup-trimmed :
      (k : Text) (m : Map V)
      → IsTagKey k
      → All (λ (e : Text × V). IsTagKey e.0) m
      → lookup (strings_trim_hash k) (rename_keys strings_trim_hash m) ≡ lookup k m
  unfolding lookup
  lookup-trimmed k [] h a = refl
  lookup-trimmed k ((j, w) ∷ m) h a = rw (trimmed_eq j k a.0 h) (rw (lookup-trimmed k m h a.1) refl)

  Distinct-trimmed :
      (m : Map V)
      → All (λ (e : Text × V). IsTagKey e.0) m
      → Distinct m
      → Distinct (rename_keys strings_trim_hash m)
  Distinct-trimmed [] a d = tt
  Distinct-trimmed ((k, v) ∷ m) a d = (lookup-trimmed k m a.0 a.1 ∙ d.0, Distinct-trimmed m a.1 d.1)

  rename_keys-same : (m : Map V) → rename_keys (λ name. name) m ≡ m
  rename_keys-same [] = refl
  rename_keys-same ((k, v) ∷ m) = ap (λ l. (k, v) ∷ l) (rename_keys-same m)

  rename_keys-back :
      (m : Map V)
      → All (λ (e : Text × V). IsTagKey e.0) m
      → rename_keys with_hash (rename_keys strings_trim_hash m) ≡ m
  rename_keys-back [] a = refl
  rename_keys-back ((k, v) ∷ m) a = λ i. (hash_back k a.0 i, v) ∷ rename_keys-back m a.1 i

  -- The three loops that a filter's tags go through.
  fill-back :
      (m : Map V)
      → All (λ (e : Text × V). IsTagKey e.0) m
      → Distinct m
      → fill with_hash (fill (λ name. name) (fill strings_trim_hash m []) []) [] ≡ m
  fill-back m a d =
      let short = Distinct-trimmed m a d in
      let first = fill-append strings_trim_hash m [] short in
      let copied : fill (λ name. name) (rename_keys strings_trim_hash m) []
          ≡ rename_keys strings_trim_hash m =
        fill-append (λ name. name) (rename_keys strings_trim_hash m) []
          (subst Distinct (sym (rename_keys-same _)) short)
        ∙ rename_keys-same _ in
      ap (λ l. fill with_hash (fill (λ name. name) l []) []) first
      ∙ ap (λ l. fill with_hash l []) copied
      ∙ fill-append with_hash (rename_keys strings_trim_hash m) []
          (subst Distinct (sym (rename_keys-back m a)) d)
      ∙ rename_keys-back m a

search-back :
    (o : Option Text)
    → AllOption IsTrimmed o
    → (if is_empty (trim_space (ptr_str o)) then none else some (trim_space (ptr_str o))) ≡ o
unfolding ptr_str trim_space
search-back none h = refl
search-back (some s) h = rw (h.1, h.0) refl

-- A filter that the host hands to a plugin over the wire and the plugin hands back as it was.
abbrev pub there_and_back : List Filter → List Filter
there_and_back fs = sdk_filters_to_nostr (filters_from_v1 (filters_to_v1 (nostr_filters_to_sdk fs)))

filter-back :
    (f : Filter)
    → IsPlain f
    → sdk_filter_to_nostr (filter_from_v1 (filter_to_v1 (nostr_filter_to_sdk f))) ≡ f
unfolding nostr_filter_to_sdk sdk_filter_to_nostr filter_to_v1 filter_from_v1 search_text
filter-back f h = λ i. record {
  ids = f.ids;
  authors = f.authors;
  kinds = map-int32 f.kinds h.kinds i;
  since = f.since;
  until = f.until;
  limit = map_option-int32 f.limit h.limit i;
  search = search-back f.search h.search i;
  tag = fill-back f.tag h.keys h.distinct i;
}

-- Filters with kinds and limits in 32 bits, tags under distinct keys of a hash and one byte, and
-- search text that is not empty and has no white space around it: they come back from a plugin that
-- changes nothing as they were, in the same order.
pub there_and_back_lem : (fs : List Filter) → All IsPlain fs → there_and_back fs ≡ fs
unfolding nostr_filters_to_sdk sdk_filters_to_nostr filters_to_v1 filters_from_v1
there_and_back_lem [] h = refl
there_and_back_lem (f ∷ fs) h = λ i. filter-back f h.0 i ∷ there_and_back_lem fs h.1 i
