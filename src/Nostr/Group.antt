-- ===== src/Nostr/Group.antt =====
-- internal/nostr/nip29.go: the tags by which an event belongs to a group, and what the relay's own
-- events say of a group. A `*Event` that may be nil is an option.
use congee.Prelude.{
  Text, bytes, ◌==◌, equal_fold, to_lower, is_hex, trim_space, is_empty, length, any_of, ℤ, pos,
  leb_ℤ, eqb_ℤ, eqb, List, [], ◌∷◌, Bool, false, not, ◌&&◌, ◌||◌, if◌then◌else◌,
}
use congee.Nostr.Event.{Event}

abbrev pub kind_group_metadata : ℤ
kind_group_metadata = pos 39000

abbrev pub kind_group_admins : ℤ
kind_group_admins = pos 39001

abbrev pub kind_put_user : ℤ
kind_put_user = pos 9000

abbrev pub kind_remove_user : ℤ
kind_remove_user = pos 9001

abbrev pub kind_create_group : ℤ
kind_create_group = pos 9007

abbrev pub kind_delete_group : ℤ
kind_delete_group = pos 9008

abbrev pub kind_join_request : ℤ
kind_join_request = pos 9021

abbrev pub kind_leave_req : ℤ
kind_leave_req = pos 9022

-- The first value under a name that is not empty, or the empty text.
unfoldable pub first_value : Text → List (List Text) → Text
first_value name [] = []
first_value name ([] ∷ tags) = first_value name tags
first_value name ((n ∷ []) ∷ tags) = first_value name tags
first_value name ((n ∷ v ∷ r) ∷ tags) =
    if n == name && not (is_empty v) then v else first_value name tags

unfoldable pub group_h_tag : Event → Text
unfolding first_value
group_h_tag ev = first_value (bytes "h") ev.tags

unfoldable pub values_from : Text → List (List Text) → List Text
values_from name [] = []
values_from name ([] ∷ tags) = values_from name tags
values_from name ((n ∷ []) ∷ tags) = values_from name tags
values_from name ((n ∷ v ∷ r) ∷ tags) =
    let rest = values_from name tags in if n == name && not (is_empty v) then v ∷ rest else rest

unfoldable pub previous_tag_values : Event → List Text
unfolding values_from
previous_tag_values ev = values_from (bytes "previous") ev.tags

unfoldable pub is_valid_previous_prefix : Text → Bool
is_valid_previous_prefix s =
    let t = trim_space (to_lower s) in if not (eqb (length t) 8) then false else is_hex t

unfoldable pub is_moderation_kind : ℤ → Bool
is_moderation_kind kind = leb_ℤ (pos 9000) kind && leb_ℤ kind (pos 9020)

abbrev named : Text → List Text → Bool
named name [] = false
named name (n ∷ r) = n == name

unfoldable pub metadata_has_bare_tag : Event → Text → Bool
metadata_has_bare_tag ev name = if is_empty name then false else any_of (named name) ev.tags

-- The three marks of a kind-39000 event.
unfoldable pub metadata_is_private : Event → Bool
unfolding metadata_has_bare_tag
metadata_is_private md =
    eqb_ℤ md.kind kind_group_metadata && metadata_has_bare_tag md (bytes "private")

unfoldable pub metadata_is_restricted : Event → Bool
unfolding metadata_has_bare_tag
metadata_is_restricted md =
    eqb_ℤ md.kind kind_group_metadata && metadata_has_bare_tag md (bytes "restricted")

unfoldable pub metadata_is_closed : Event → Bool
unfolding metadata_has_bare_tag
metadata_is_closed md =
    eqb_ℤ md.kind kind_group_metadata && metadata_has_bare_tag md (bytes "closed")

unfoldable pub lists_admin : Text → List (List Text) → Bool
lists_admin want [] = false
lists_admin want ([] ∷ tags) = lists_admin want tags
lists_admin want ((n ∷ []) ∷ tags) = lists_admin want tags
lists_admin want ((n ∷ v ∷ r) ∷ tags) =
    (n == bytes "p" && equal_fold (trim_space v) want) || lists_admin want tags

unfoldable pub admins_39001_contains_pubkey : Event → Text → Bool
unfolding lists_admin
admins_39001_contains_pubkey admins pubkey =
    if not (eqb_ℤ admins.kind kind_group_admins) || is_empty pubkey
    then false
    else if is_empty (trim_space pubkey)
    then false
    else lists_admin (trim_space pubkey) admins.tags
