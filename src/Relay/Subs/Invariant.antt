-- ===== src/Relay/Subs/Invariant.antt =====
-- The limits that hold of every subscription, whatever operations were run.
use congee.Prelude.{
  ◌≤◌, Text, length, length-insert, length-delete-le, All, All-insert, All-delete, All-lookup,
  Distinct, Distinct-insert, Distinct-delete, is_some, not, ◌&&◌, leb_ℤ, ltb_ℤ, Map, lookup, insert,
  delete, ℤ, pos, ◌≤ℤ◌, List, [], ◌∷◌, true, false, ◌≡◌, refl, inl, inr, arith, Option-cases,
  Bool-cases,
}
use congee.Nostr.Filter.{Filter}
use congee.Relay.Subs.{
  SubEntry, Manager, pending_live_cap, new_entry, subs_of, add, update_entry, remove_mark,
  remove_delete, store_or_drop, unregister_sender, register_sender,
}

-- An entry under its id: the id and the filters within their limits, and the buffer within its cap,
-- and empty once the snapshot is done.
pub record EntryInv (max_len max_filters : ℤ) (x : Text × SubEntry) : Type 0 where
  pub id_short : pos (length x.0) ≤ℤ max_len
  pub few_filters : pos (length x.1.filters) ≤ℤ max_filters
  pub buffer_bounded : length x.1.pending_live ≤ pending_live_cap
  pub flushed : x.1.snapshot_done ≡ true → x.1.pending_live ≡ []

-- The subscriptions of one connection.
pub record ConnInv (max_subs max_len max_filters : ℤ) (x : Text × Map SubEntry) : Type 0 where
  pub few : pos (length x.1) ≤ℤ max_subs
  pub entries : All (EntryInv max_len max_filters) x.1

pub record Inv (m : Manager) : Type 0 where
  pub some_allowed : pos 0 ≤ℤ m.max_subs_per_conn
  pub distinct : Distinct m.subs
  pub conns : All (ConnInv m.max_subs_per_conn m.max_sub_id_len m.max_filters) m.subs

subs_of-ConnInv :
    (m : Manager) (c : Text)
    → Inv m
    → ConnInv m.max_subs_per_conn m.max_sub_id_len m.max_filters (c, subs_of c m)
unfolding subs_of
subs_of-ConnInv m c h = elim (Option-cases (lookup c m.subs)) [
  | inl e ↦ rw e (record { few = h.some_allowed; entries = tt })
  | inr (cmap, e) ↦ rw e (All-lookup _ c m.subs e h.conns)
]

-- Writing the subscriptions of one connection.
pub put_conn-Inv :
    (m : Manager) (c : Text) (cmap : Map SubEntry)
    → Inv m
    → ConnInv m.max_subs_per_conn m.max_sub_id_len m.max_filters (c, cmap)
    → Inv (record m { subs = insert c cmap m.subs })
put_conn-Inv m c cmap h k = record {
  some_allowed = h.some_allowed;
  distinct = Distinct-insert c cmap m.subs h.distinct;
  conns = All-insert _ c cmap m.subs k h.conns;
}

-- A new entry beside those of a connection that has room, or in place of an old one.
insert-ConnInv :
    (m : Manager) (c s : Text) (e : SubEntry) (cmap : Map SubEntry)
    → ConnInv m.max_subs_per_conn m.max_sub_id_len m.max_filters (c, cmap)
    → EntryInv m.max_sub_id_len m.max_filters (s, e)
    → (not (is_some (lookup s cmap)) && leb_ℤ m.max_subs_per_conn (pos (length cmap))) ≡ false
    → ConnInv m.max_subs_per_conn m.max_sub_id_len m.max_filters (c, insert s e cmap)
insert-ConnInv m c s e cmap h k room = record {
  few = ground (arith, length-insert s e cmap, h.few);
  entries = All-insert _ s e cmap k h.entries;
}

-- Adding a subscription keeps the limits, also when it is refused.
pub add-Inv :
    (now : ℤ) (c s : Text) (fs : List Filter) (m : Manager) → Inv m → Inv (add now c s fs m).0
unfolding add
add-Inv now c s fs m h = elim (Bool-cases (ltb_ℤ m.max_sub_id_len (pos (length s)))) [
  | inl long ↦ rw long h
  | inr short ↦ elim (Bool-cases (ltb_ℤ m.max_filters (pos (length fs)))) [
    | inl many ↦ rw (short, many) h
    | inr few ↦
        elim (Bool-cases (
          not (is_some (lookup s (subs_of c m)))
          && leb_ℤ m.max_subs_per_conn (pos (length (subs_of c m))))) [
            | inl full ↦ rw (short, few, full) (put_conn-Inv m c _ h (subs_of-ConnInv m c h))
            | inr room ↦
                rw (short, few, room)
                  (put_conn-Inv m c _ h (
                    insert-ConnInv m c s (new_entry fs now) (subs_of c m) (subs_of-ConnInv m c h)
                      (fresh short few) room))
          ]
  ]
]
  where
    fresh :
        ltb_ℤ m.max_sub_id_len (pos (length s)) ≡ false
        → ltb_ℤ m.max_filters (pos (length fs)) ≡ false
        → EntryInv m.max_sub_id_len m.max_filters (s, new_entry fs now)
    fresh short few = record {
      id_short = ground arith;
      few_filters = ground arith;
      buffer_bounded = omega arith;
      flushed = λ _. refl;
    }

-- A change of one entry that keeps its limits keeps them all.
pub update_entry-Inv :
    (c s : Text) (f : SubEntry → SubEntry) (m : Manager)
    → ((e : SubEntry)
        → EntryInv m.max_sub_id_len m.max_filters (s, e)
        → EntryInv m.max_sub_id_len m.max_filters (s, f e))
    → Inv m
    → Inv (update_entry c s f m)
unfolding update_entry
update_entry-Inv c s f m keeps h = elim (Option-cases (lookup c m.subs)) [
  | inl e ↦ rw (e, update_entry) h
  | inr (cmap, e) ↦ elim (Option-cases (lookup s cmap)) [
    | inl q ↦ rw (e, update_entry, q) h
    | inr (x, q) ↦
        let k = All-lookup _ c m.subs e h.conns in
        rw (e, update_entry, q)
          (put_conn-Inv m c _ h
            (insert-ConnInv m c s (f x) cmap k (keeps x (All-lookup _ s cmap q k.entries)) (rw q)))
  ]
]

pub remove_mark-Inv : (c s : Text) (m : Manager) → Inv m → Inv (remove_mark c s m)
unfolding remove_mark
remove_mark-Inv c s m = update_entry-Inv c s _ m λ e k. record {
  id_short = k.id_short;
  few_filters = k.few_filters;
  buffer_bounded = k.buffer_bounded;
  flushed = k.flushed;
}

store_or_drop-All {κ} :
    (P : Text × Map SubEntry → Type κ) (c : Text) (cmap : Map SubEntry) (subs : Map (Map SubEntry))
    → P (c, cmap)
    → All P subs
    → All P (store_or_drop c cmap subs)
store_or_drop-All P c [] subs p h = All-delete P c subs h
store_or_drop-All P c (x ∷ cmap) subs p h = All-insert P c (x ∷ cmap) subs p h

store_or_drop-Distinct :
    (c : Text) (cmap : Map SubEntry) (subs : Map (Map SubEntry))
    → Distinct subs
    → Distinct (store_or_drop c cmap subs)
store_or_drop-Distinct c [] subs d = Distinct-delete c subs d
store_or_drop-Distinct c (x ∷ cmap) subs d = Distinct-insert c (x ∷ cmap) subs d

pub remove_delete-Inv : (c s : Text) (m : Manager) → Inv m → Inv (remove_delete c s m)
unfolding remove_delete
remove_delete-Inv c s m h = elim (Option-cases (lookup c m.subs)) [
  | inl e ↦ rw (e, remove_delete) h
  | inr (cmap, e) ↦
      let k = All-lookup _ c m.subs e h.conns in
      rw (e, remove_delete)
        (record {
          some_allowed = h.some_allowed;
          distinct = store_or_drop-Distinct c (delete s cmap) m.subs h.distinct;
          conns =
              store_or_drop-All _ c (delete s cmap) m.subs
                (record {
                  few = omega (arith, length-delete-le s cmap, k.few);
                  entries = All-delete _ s cmap k.entries;
                })
                h.conns;
        })
]

pub unregister_sender-Inv : (c : Text) (m : Manager) → Inv m → Inv (unregister_sender c m).0
unfolding unregister_sender
unregister_sender-Inv c m h = record {
  some_allowed = h.some_allowed;
  distinct = Distinct-delete c m.subs h.distinct;
  conns = All-delete _ c m.subs h.conns;
}

pub register_sender-Inv : (c : Text) (m : Manager) → Inv m → Inv (register_sender c m)
unfolding register_sender
register_sender-Inv c m h = record {
  some_allowed = h.some_allowed;
  distinct = h.distinct;
  conns = h.conns;
}
