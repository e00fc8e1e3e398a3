-- ===== src/Plugin/Match.antt =====
-- internal/plugin/match.go: the traffic that a plugin subscribes to.
use congee.Prelude.{
  Text, bytes, ◌==◌, equal_fold, has_prefix, trim_prefix, any_of, is_empty, mem_int, lookup, ℤ,
  List, [], ◌∷◌, ◌++◌, Bool, true, false, not, ◌&&◌, ◌||◌, Option, none, some, if◌then◌else◌,
}
use congee.Nostr.Event.{Event}
use congee.Nostr.Filter.{Filter, has_search}
use congee.Nostr.Wire.{
  ClientMessage, event_message, req_message, close_message, auth_message, neg_open_message,
  neg_msg_message, neg_close_message,
}
pub mod Traffic

pub record TrafficSubscription : Type 0 where
  pub message_types : List Text
  pub kinds : List ℤ
  pub req_tag_names : List Text
  pub req_has_search : Bool
  pub observe : Bool
  pub intercept_req : Bool
  pub on_stored_event : Bool

abbrev pub kind_in : List ℤ → ℤ → Bool
kind_in kinds kind = mem_int kind kinds

unfoldable pub kinds_intersect : List ℤ → List ℤ → Bool
kinds_intersect a b = if is_empty a || is_empty b then false else any_of (λ x. mem_int x b) a

unfoldable pub has_msg_type : TrafficSubscription → Text → Bool
has_msg_type s typ = any_of (λ t. equal_fold t typ) s.message_types

abbrev some_values : Option (List Text) → Bool
some_values none = false
some_values (some vals) = not (is_empty vals)

-- The body of the loop over the tag names.
unfoldable pub tag_wanted : Filter → Text → Bool
tag_wanted f name =
    let key = if not (has_prefix name (bytes "#")) then bytes "#" ++ name else name in
    let letter = trim_prefix key (bytes "#") in
    some_values (lookup key f.tag) || some_values (lookup letter f.tag)

unfoldable pub req_hits : TrafficSubscription → List Filter → Bool
unfolding kinds_intersect tag_wanted has_search
req_hits s [] = false
req_hits s (f ∷ filters) =
    let rest = req_hits s filters in
    if kinds_intersect s.kinds f.kinds
    then true
    else if s.req_has_search && has_search f
    then true
    else if any_of (tag_wanted f) s.req_tag_names
    then true
    else rest

-- One turn of the loop of `MatchObserve`, for each type of message.
unfoldable pub observes : ClientMessage → TrafficSubscription → Bool
unfolding has_msg_type req_hits
observes (event_message ev) s =
    if not s.observe || not (has_msg_type s (bytes "EVENT")) then false else kind_in s.kinds ev.kind
observes (req_message sub_id filters) s =
    if not s.observe || not (has_msg_type s (bytes "REQ")) then false else req_hits s filters
observes (close_message sub_id) s = s.observe && has_msg_type s (bytes "CLOSE")
observes (auth_message ev) s = s.observe && has_msg_type s (bytes "AUTH")
observes (neg_open_message sub_id f m) s = false
observes (neg_msg_message sub_id m) s = false
observes (neg_close_message sub_id) s = false

unfoldable pub match_observe : List TrafficSubscription → ClientMessage → Bool
unfolding observes
match_observe subs msg = any_of (observes msg) subs

unfoldable pub match_intercept_req : List TrafficSubscription → List Filter → Bool
unfolding has_msg_type req_hits
match_intercept_req [] filters = false
match_intercept_req (s ∷ subs) filters =
    let rest = match_intercept_req subs filters in
    if not s.intercept_req || not (has_msg_type s (bytes "REQ"))
    then rest
    else if req_hits s filters
    then true
    else rest

unfoldable pub match_on_stored_event : List TrafficSubscription → ℤ → Bool
match_on_stored_event subs kind = any_of (λ s. s.on_stored_event && kind_in s.kinds kind) subs
