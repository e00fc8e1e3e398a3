-- ===== src/Storage/Events.antt =====
-- internal/storage/sqlevent/store.go: the events of the SQL store, as the list of its rows in any
-- order, each with its tags. A statement is what SQL says of it, and `fault` the error of the driver
-- or the writer, where there is one: the transaction is rolled back.
pub mod Rows
pub mod Replaced
use congee.Prelude.{
  Text, bytes, ◌==◌, any_of, keep, ℤ, pos, eqb_ℤ, ltb_ℤ, text_lt, List, [], ◌∷◌, ◌++◌, Bool, true,
  false, not, ◌&&◌, ◌||◌, Option, none, some, if◌then◌else◌,
}
use congee.Nostr.Event.{Event}
use congee.Nostr.Kind.{
  KindClass, regular, replaceable, ephemeral, addressable, classify_kind, is_ephemeral,
}
use congee.Nostr.Group.{kind_group_metadata, kind_group_admins, kind_put_user, kind_remove_user}

unfoldable pub extract_d_tag : List (List Text) → Text
extract_d_tag [] = []
extract_d_tag ([] ∷ tags) = extract_d_tag tags
extract_d_tag ((n ∷ []) ∷ tags) =
    let rest = extract_d_tag tags in if n == bytes "d" then [] else rest
extract_d_tag ((n ∷ v ∷ r) ∷ tags) =
    let rest = extract_d_tag tags in if n == bytes "d" then v else rest

abbrev same_author_kind : Event → Event → Bool
same_author_kind ev e = e.pub_key == ev.pub_key && eqb_ℤ e.kind ev.kind

abbrev replaced_by : KindClass → Event → Event → Bool
replaced_by regular ev e = false
replaced_by ephemeral ev e = false
replaced_by replaceable ev e = same_author_kind ev e
replaced_by addressable ev e =
    same_author_kind ev e && extract_d_tag e.tags == extract_d_tag ev.tags

-- The rows that are deleted before an event is inserted.
unfoldable pub replaced : Event → Event → Bool
unfolding classify_kind extract_d_tag ◌==◌
replaced ev e = replaced_by (classify_kind ev.kind) ev e

unfoldable pub has_event_id : Text → List Event → Bool
unfolding ◌==◌
has_event_id id rows = any_of (λ e. e.id == id) rows

-- `conflict` is the driver's error for a second row of an id.
unfoldable pub save_event :
    Text → Text → Option Text → Event → List Event → List Event × Option Text
unfolding is_ephemeral replaced has_event_id bytes
save_event engine conflict fault ev rows =
    let left = keep (λ e. not (replaced ev e)) rows in
    if is_ephemeral ev.kind
    then (rows, some (engine ++ bytes ": ephemeral events are not stored"))
    else elim fault [
      | some e ↦ (rows, some e)
      | none ↦ if has_event_id ev.id left then (rows, some conflict) else (left ++ ev ∷ [], none)
    ]

unfoldable pub delete_event : Option Text → Text → List Event → List Event × Option Text
unfolding ◌==◌
delete_event (some e) id rows = (rows, some e)
delete_event none id rows = (keep (λ e. not (e.id == id)) rows, none)

-- ORDER BY created_at DESC, id ASC LIMIT 1
unfoldable pub row_before : Event → Event → Bool
unfolding text_lt
row_before a b =
    if eqb_ℤ a.created_at b.created_at then text_lt a.id b.id else ltb_ℤ b.created_at a.created_at

abbrev pub first_row : Event → Option Event → Event
first_row e none = e
first_row e (some x) = if row_before x e then x else e

unfoldable pub latest_row : List Event → Option Event
unfolding row_before
latest_row [] = none
latest_row (e ∷ rows) = some (first_row e (latest_row rows))

abbrev relay_row : Text → Text → ℤ → Event → Bool
relay_row relay_pubkey group_id kind e =
    e.pub_key == relay_pubkey && eqb_ℤ e.kind kind && extract_d_tag e.tags == group_id

unfoldable pub get_latest_group_metadata_39000 : Text → Text → List Event → Option Event
unfolding latest_row extract_d_tag ◌==◌
get_latest_group_metadata_39000 relay_pubkey group_id rows =
    latest_row (keep (relay_row relay_pubkey group_id kind_group_metadata) rows)

unfoldable pub get_latest_group_admins_39001 : Text → Text → List Event → Option Event
unfolding latest_row extract_d_tag ◌==◌
get_latest_group_admins_39001 relay_pubkey group_id rows =
    latest_row (keep (relay_row relay_pubkey group_id kind_group_admins) rows)

-- A row of `event_tags`.
abbrev pub is_tag_row : Text → Text → List Text → Bool
is_tag_row name value [] = [] == name && [] == value
is_tag_row name value (n ∷ []) = n == name && [] == value
is_tag_row name value (n ∷ v ∷ r) = n == name && v == value

abbrev pub has_tag_row : Text → Text → Event → Bool
has_tag_row name value e = any_of (is_tag_row name value) e.tags

abbrev pub member_row : Text → Text → Text → Event → Bool
member_row relay_pubkey group_id member_pubkey e =
    has_tag_row (bytes "h") group_id e
    && has_tag_row (bytes "p") member_pubkey e
    && e.pub_key == relay_pubkey
    && (eqb_ℤ e.kind kind_put_user || eqb_ℤ e.kind kind_remove_user)

abbrev pub puts_user : Option Event → Bool
puts_user none = false
puts_user (some e) = eqb_ℤ e.kind kind_put_user

unfoldable pub is_group_member : Text → Text → Text → List Event → Bool
unfolding latest_row bytes ◌==◌
is_group_member relay_pubkey group_id member_pubkey rows =
    puts_user (latest_row (keep (member_row relay_pubkey group_id member_pubkey) rows))
