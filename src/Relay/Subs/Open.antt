-- ===== src/Relay/Subs/Open.antt =====
-- What adding and removing a subscription do to what is open.
use mathlib.Core.Option
use congee.Prelude.{
  Text, ◌==◌, ==_iff, ==_refl, length, is_some, Map, lookup, insert, lookup-insert, lookup-delete,
  ℤ, pos, eqb_ℤ, List, [], ◌∷◌, Bool, true, false, not, ◌&&◌, Option, none, some, ◌≡◌, inl, inr,
  ◌↔◌, ◌⊎◌, ◌≤ℤ◌, ◌<ℤ◌, arith, Option-cases, if◌then◌else◌,
}
use congee.Nostr.Filter.{Filter}
use congee.Relay.Subs.{
  SubEntry, Manager, new_entry, entries_or_empty, subs_of, add, update_entry, remove_mark,
  remove_delete, remove, store_or_drop, is_open, unregister_sender, is_same_snapshot,
}

-- The entry of a subscription of a connection.
abbrev pub entry : Text → Text → Manager → Option SubEntry
entry c s m = lookup s (subs_of c m)

store_or_drop-entries :
    (c c' : Text) (cmap : Map SubEntry) (subs : Map (Map SubEntry))
    → entries_or_empty (lookup c' (store_or_drop c cmap subs))
      ≡ (if c == c' then cmap else entries_or_empty (lookup c' subs))
store_or_drop-entries c c' [] subs = rw lookup-delete (ground arith)
store_or_drop-entries c c' (x ∷ cmap) subs = rw lookup-insert (ground arith)

put_conn-entry :
    (m : Manager) (c c' s' : Text) (cmap : Map SubEntry)
    → entry c' s' (record m { subs = insert c cmap m.subs })
      ≡ (if c == c' then lookup s' cmap else entry c' s' m)
unfolding subs_of
put_conn-entry m c c' s' cmap = rw lookup-insert (ground arith)

-- Writing back what a connection has, or a new entry beside it.
put_same-entry :
    (m : Manager) (c c' s' : Text)
    → entry c' s' (record m { subs = insert c (subs_of c m) m.subs }) ≡ entry c' s' m
put_same-entry m c c' s' = rw put_conn-entry (ground (arith, ==_iff c c'))

put_entry-entry :
    (m : Manager) (c s c' s' : Text) (e : SubEntry)
    → entry c' s' (record m { subs = insert c (insert s e (subs_of c m)) m.subs })
      ≡ (if c == c' && s == s' then some e else entry c' s' m)
put_entry-entry m c s c' s' e = rw (put_conn-entry, lookup-insert) (ground (arith, ==_iff c c'))

-- What `add` answers: it succeeds exactly when the id and the filters are within their limits and
-- the connection has the id already or room for one more.
pub add-none_iff :
    (now : ℤ) (c s : Text) (fs : List Filter) (m : Manager)
    → ((add now c s fs m).1 ≡ none)
      ↔ (pos (length s) ≤ℤ m.max_sub_id_len)
        × (pos (length fs) ≤ℤ m.max_filters)
        × ((is_some (entry c s m) ≡ true) ⊎ (pos (length (subs_of c m)) <ℤ m.max_subs_per_conn))
unfolding add
add-none_iff now c s fs m = ground arith

-- An added subscription has a new entry; every other one, and all of them where `add` fails, have
-- the entry that they had.
pub add-entry :
    (now : ℤ) (c s : Text) (fs : List Filter) (m : Manager) (c' s' : Text)
    → entry c' s' (add now c s fs m).0 ≡ (
        if not (is_some (add now c s fs m).1) && (c == c' && s == s')
        then some (new_entry fs now)
        else entry c' s' m)
unfolding add
add-entry now c s fs m c' s' =
    ground (arith, put_same-entry m c c' s', put_entry-entry m c s c' s' (new_entry fs now))

pub update_entry-entry :
    (c s : Text) (f : SubEntry → SubEntry) (m : Manager) (c' s' : Text)
    → entry c' s' (update_entry c s f m)
      ≡ (if c == c' && s == s' then Option.map f (entry c s m) else entry c' s' m)
unfolding update_entry subs_of lookup
update_entry-entry c s f m c' s' = elim (Option-cases (lookup c m.subs)) [
  | inl e ↦ rw (e, update_entry) (ground (arith, ==_iff c c', ==_iff s s'))
  | inr (cmap, e) ↦ elim (Option-cases (lookup s cmap)) [
    | inl q ↦ rw (e, update_entry, q) (ground (arith, ==_iff c c', ==_iff s s'))
    | inr (x, q) ↦
        rw (e, update_entry, q, lookup-insert)
          (ground (arith, ==_iff c c', ==_iff s s', lookup-insert s s' (f x) cmap))
  ]
]

remove_delete-entry :
    (c s : Text) (m : Manager) (c' s' : Text)
    → entry c' s' (remove_delete c s m) ≡ (if c == c' && s == s' then none else entry c' s' m)
unfolding remove_delete subs_of lookup
remove_delete-entry c s m c' s' = elim (Option-cases (lookup c m.subs)) [
  | inl e ↦ rw (e, remove_delete) (ground (arith, ==_iff c c'))
  | inr (cmap, e) ↦
      rw (e, remove_delete, store_or_drop-entries)
        (ground (arith, ==_iff c c', lookup-delete s s' cmap))
]

-- Removing a subscription removes its entry and touches no other.
pub remove-entry :
    (c s : Text) (m : Manager) (c' s' : Text)
    → entry c' s' (remove c s m) ≡ (if c == c' && s == s' then none else entry c' s' m)
unfolding remove remove_mark
remove-entry c s m c' s' = rw (remove_delete-entry, update_entry-entry) (ground arith)

abbrev open_entry : Bool → Option SubEntry → Bool
open_entry false e = false
open_entry true none = false
open_entry true (some e) = not e.closed

is_open-entry :
    (c s : Text) (m : Manager)
    → is_open c s m ≡ open_entry (is_some (lookup c m.senders)) (entry c s m)
unfolding is_open
is_open-entry c s m = ground arith

-- From the first locked part of `Remove` on, the subscription is not open, and after `Remove` no
-- operation that needs an entry finds one.
pub remove-closes :
    (c s : Text) (m : Manager)
    → (is_open c s (remove_mark c s m) ≡ false)
      × (is_open c s (remove c s m) ≡ false)
      × (entry c s (remove c s m) ≡ none)
unfolding remove_mark
remove-closes c s m = (
  rw (is_open-entry, update_entry-entry, ==_refl c, ==_refl s) (ground arith),
  rw (is_open-entry, remove-entry, ==_refl c, ==_refl s) (ground arith),
  rw (remove-entry, ==_refl c, ==_refl s),
)

pub unregister_sender-entry :
    (c : Text) (m : Manager) (c' s' : Text)
    → entry c' s' (unregister_sender c m).0 ≡ (if c == c' then none else entry c' s' m)
unfolding unregister_sender subs_of lookup
unregister_sender-entry c m c' s' = rw lookup-delete (ground arith)

pub add-senders :
    (now : ℤ) (c s : Text) (fs : List Filter) (m : Manager)
    → (add now c s fs m).0.senders ≡ m.senders
unfolding add
add-senders now c s fs m = ground arith

-- A subscription that a connection with a sender has just opened is the same snapshot as any that the connection opened under
-- its id in the same second, and as none of another second.
pub is_same_snapshot-add :
    (now t : ℤ) (c s : Text) (fs : List Filter) (m : Manager)
    → (add now c s fs m).1 ≡ none
    → is_some (lookup c m.senders) ≡ true
    → is_same_snapshot c s t (add now c s fs m).0 ≡ eqb_ℤ now t
unfolding is_same_snapshot
is_same_snapshot-add now t c s fs m h r =
    ground (arith, add-entry now c s fs m c s, add-senders now c s fs m, ==_refl c, ==_refl s)
