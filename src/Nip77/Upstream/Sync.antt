-- ===== src/Nip77/Upstream/Sync.antt =====
-- internal/nip77/upstream/scheduler.go: `pullUpstream` and what it calls. The reconciliation of
-- go-nostr, the store and the signature check are arguments.
pub mod Imports
use congee.Prelude.{
  ℕ, suc, ◌+◌, Text, bytes, ◌==◌, to_lower, is_empty, length, ℤ, pos, ltb_ℤ, List, [], ◌∷◌, ◌++◌,
  Bool, true, false, Option, none, some, Result, success, failure, ◌>>=◌, if◌then◌else◌,
}
use congee.Nostr.Event.{Event}
use congee.Nostr.Filter.{Filter, has_search}
use congee.Nip77.Upstream.{
  Message, Read, received, timeout, broken, Outgoing, neg_open, neg_msg, neg_close, SyncError,
  no_filters, parse_failed, query_failed, dial_failed, send_failed, read_failed, neg_err,
  reconcile_failed, neg_timeout, Link, Ended, ended, failed, Environment, send_json, answer_auth,
  after_auth, handshake_auth, req_event_by_id,
}

-- The client of a reconciliation. `need_ids` are the ids that `HaveNots` held, the empty one left out.
pub record Client (Store Neg : Type 0) : Type 0 where
  pub query_sync_items : Filter → Store → Result Neg
  pub start : Neg → Neg × Text
  pub reconcile : Neg → Text → Neg × Result Text
  pub need_ids : Neg → List Text
  pub sub_id : List Outgoing → Text

-- The store as it changes, and the check of a signature.
pub record Importer (Store : Type 0) : Type 0 where
  pub verify_sig : Event → Option Text
  pub has_event_id : Text → Store → Result Bool
  pub save_event : Event → Store → Store × Option Text

-- A pull under way. `notified` are the events that the plugins were told of, in order.
pub record Pull (Store : Type 0) : Type 0 where
  pub link : Link
  pub store : Store
  pub notified : List Event

unfoldable pub parse_upstream_filters : (Text → Result Filter) → List Text → Result (List Filter)
unfolding has_search
parse_upstream_filters parse [] = success []
parse_upstream_filters parse (r ∷ raw) = do
  f ← parse r
  fs ←
      if has_search f
      then failure (bytes "search not supported")
      else parse_upstream_filters parse raw
  success (f ∷ fs)

module _ {Store Neg : Type 0} (env : Environment) (client : Client Store Neg) where
  abbrev neg_msg_sent :
      List Read
      → (List Outgoing → Link × Ended Neg)
      → List Outgoing × Option Text
      → Link × Ended Neg
  neg_msg_sent r next (sent, none) = next sent
  neg_msg_sent r next (sent, some e) = (record { reads = r; sent = sent }, failed (send_failed e))

  -- What follows a round of the reconciliation.
  abbrev after_round :
      Text
      → List Read
      → List Outgoing
      → (Neg → List Outgoing → Link × Ended Neg)
      → Neg × Result Text
      → Link × Ended Neg
  after_round sub r sent next (neg, failure e) =
      (record { reads = r; sent = sent }, failed (reconcile_failed e))
  after_round sub r sent next (neg, success out) =
      if is_empty out
      then (record { reads = r; sent = (send_json env (neg_close sub) sent).0 }, ended neg)
      else neg_msg_sent r (next neg) (send_json env (neg_msg sub out) sent)

  -- The loop of `syncFilter`, with the rounds that are complete.
  unfoldable pub sync_rounds : Text → Text → ℕ → Neg → List Read → List Outgoing → Link × Ended Neg
  unfolding send_json answer_auth bytes to_lower ◌==◌
  sync_rounds url sub round neg [] sent =
      (record { reads = []; sent = sent }, failed (neg_timeout round))
  sync_rounds url sub round neg (timeout ∷ r) sent =
      (record { reads = r; sent = sent }, failed (neg_timeout round))
  sync_rounds url sub round neg (broken e ∷ r) sent =
      (record { reads = r; sent = sent }, failed (read_failed e))
  sync_rounds url sub round neg (received m ∷ r) sent =
      let next =
        after_round sub r sent (λ neg' sent'. sync_rounds url sub (suc round) neg' r sent')
          (client.reconcile neg (to_lower m.text2)) in
      let again =
        after_auth env (λ sent'. sync_rounds url sub round neg r sent')
          (λ sent' e. (record { reads = r; sent = sent' }, failed e))
          (answer_auth env url m.text1 sent) in
      let rest = sync_rounds url sub round neg r sent in
      if m.typ == bytes "NEG-ERR"
      then (record { reads = r; sent = sent }, failed (neg_err m.text2))
      else if m.typ == bytes "NEG-MSG"
      then next
      else if m.typ == bytes "AUTH"
      then again
      else rest

module _ {Store : Type 0} (env : Environment) (importer : Importer Store) where
  abbrev saved : Store × Option Text → Store × Result Bool
  saved (st, none) = (st, success true)
  saved (st, some e) = (st, failure e)

  abbrev save_unless : Event → Store → Result Bool → Store × Result Bool
  save_unless ev st (failure e) = (st, failure e)
  save_unless ev st (success true) = (st, success false)
  save_unless ev st (success false) = saved (importer.save_event ev st)

  -- `persistImportedEvent` without its notice to the plugins.
  unfoldable pub persist_imported_event : Event → Store → Store × Result Bool
  persist_imported_event ev st = save_unless ev st (importer.has_event_id ev.id st)

  abbrev note_import : Event → Pull Store → Store × Result Bool → Pull Store × ℕ
  note_import ev p (st, success true) =
      (record p { store = st; notified = p.notified ++ ev ∷ [] }, 1)
  note_import ev p (st, success false) = (record p { store = st }, 0)
  note_import ev p (st, failure e) = (record p { store = st }, 0)

  -- An event that is had, and then its signature is checked.
  abbrev import_event : Pull Store → Link × Option Event → Pull Store × ℕ
  import_event p (link, none) = (record p { link = link }, 0)
  import_event p (link, some ev) =
      let q = record p { link = link } in
      elim (importer.verify_sig ev) [
        | some e ↦ (q, 0)
        | none ↦ note_import ev q (persist_imported_event ev p.store)
      ]

  -- The loop over the ids that are needed, and the events imported.
  unfoldable pub fetch_needed : List Text → Pull Store → Pull Store × ℕ
  unfolding req_event_by_id persist_imported_event
  fetch_needed [] p = (p, 0)
  fetch_needed (id ∷ ids) p =
      let (p', n) = import_event p (req_event_by_id env id p.link) in
      let (p'', k) = fetch_needed ids p' in (p'', n + k)

module _ {Store Neg : Type 0} (env : Environment) (client : Client Store Neg)
    (importer : Importer Store) where
  -- A pull and its totals of ids needed and events imported, with the error that ended it.
  abbrev pub Pulled : Type 0
  Pulled = Pull Store × ℕ × ℕ × Option SyncError

  abbrev fetch_ended : Pull Store → Link × Ended Neg → Pulled
  fetch_ended p (link, failed e) = (record p { link = link }, 0, 0, some e)
  fetch_ended p (link, ended neg) =
      let ids = client.need_ids neg in
      let (p', n) = fetch_needed env importer ids (record p { link = link }) in
      (p', length ids, n, none)

  abbrev rounds_sent : Text → Text → Neg → Pull Store → List Outgoing × Option Text → Pulled
  rounds_sent url sub neg p (sent, some e) =
      (record p { link = record p.link { sent = sent } }, 0, 0, some (send_failed e))
  rounds_sent url sub neg p (sent, none) =
      fetch_ended p (sync_rounds env client url sub 0 neg p.link.reads sent)

  abbrev sync_items : Text → Filter → Pull Store → Result Neg → Pulled
  sync_items url f p (failure e) = (p, 0, 0, some (query_failed e))
  sync_items url f p (success local) =
      let (neg, initial) = client.start local in
      let sub = client.sub_id p.link.sent in
      rounds_sent url sub neg p (send_json env (neg_open sub f initial) p.link.sent)

  unfoldable pub sync_filter : Text → Filter → Pull Store → Pulled
  unfolding send_json sync_rounds fetch_needed
  sync_filter url f p = sync_items url f p (client.query_sync_items f p.store)

  abbrev add_totals : ℕ → ℕ → Pulled → Pulled
  add_totals need imported (p, n, k, e) = (p, need + n, imported + k, e)

  -- What an error ends is not counted.
  abbrev next_filter : (Pull Store → Pulled) → Pulled → Pulled
  next_filter go (p, need, imported, some e) = (p, 0, 0, some e)
  next_filter go (p, need, imported, none) = add_totals need imported (go p)

  -- The loop over the filters.
  unfoldable pub sync_filters : Text → List Filter → Pull Store → Pulled
  unfolding sync_filter
  sync_filters url [] p = (p, 0, 0, none)
  sync_filters url (f ∷ fs) p = next_filter (λ p'. sync_filters url fs p') (sync_filter url f p)

  abbrev after_handshake : Text → List Filter → Pull Store → Link × Option SyncError → Pulled
  after_handshake url fs p (link, some e) = (record p { link = link }, 0, 0, some e)
  after_handshake url fs p (link, none) = sync_filters url fs (record p { link = link })

  abbrev parsed : Option Text → ℤ → Text → Pull Store → Result (List Filter) → Pulled
  parsed dial auth_wait url p (failure e) = (p, 0, 0, some (parse_failed e))
  parsed (some e) auth_wait url p (success fs) = (p, 0, 0, some (dial_failed e))
  parsed none auth_wait url p (success fs) =
      if ltb_ℤ (pos 0) auth_wait
      then after_handshake url fs p (handshake_auth env url p.link.reads p.link.sent)
      else sync_filters url fs p

  -- `dial` is what the connection answers, and `auth_wait` the setting in effect.
  unfoldable pub pull_upstream :
      (Text → Result Filter) → Option Text → ℤ → Text → List Text → Pull Store → Pulled
  unfolding parse_upstream_filters handshake_auth sync_filters
  pull_upstream parse dial auth_wait url raw p =
      if is_empty raw
      then (p, 0, 0, some (no_filters (bytes "no filters")))
      else parsed dial auth_wait url p (parse_upstream_filters parse raw)
