-- ===== src/Nip77/Upstream/Sync/Imports.antt =====
-- What a pull brings into the store, whatever the upstream sends.
use mathlib.Core.List.{append-nil, append_assoc}
use congee.Prelude.{
  ℕ, ◌+◌, ◌≤◌, Text, bytes, is_empty, length, length-append, All, ℤ, pos, ltb_ℤ, List, [], ◌∷◌,
  ◌++◌, Bool, true, false, Option, none, some, Result, success, failure, ◌≡◌, refl, ap, sym, subst,
  ◌∙◌, arith, inl, inr, Bool-cases, Option-cases,
}
use congee.Nostr.Event.{Event}
use congee.Nostr.Filter.{Filter}
use congee.Nip77.Upstream.{
  Outgoing, neg_open, SyncError, no_filters, parse_failed, dial_failed, query_failed, send_failed,
  Link, Ended, ended, failed, Environment, send_json, handshake_auth, req_event_by_id,
}
use congee.Nip77.Upstream.Sync.{
  Client, Importer, Pull, parse_upstream_filters, sync_rounds, persist_imported_event, import_event,
  note_import, save_unless, saved, fetch_needed, fetch_ended, rounds_sent, sync_items, sync_filter,
  next_filter, sync_filters, after_handshake, parsed, pull_upstream, Pulled,
}

module _ {Store : Type 0} (env : Environment) (importer : Importer Store) where
  -- An event whose signature is good, and that the store did not have when it saved it.
  abbrev pub IsImport : Event → Type 0
  IsImport ev =
      (importer.verify_sig ev ≡ none)
      × ((st : Store) × (importer.has_event_id ev.id st ≡ success false)
          × ((importer.save_event ev st).1 ≡ none))

  -- The second list goes on from the first with `n` more events, all of them imports.
  abbrev pub Imported : List Event → List Event → ℕ → Type 0
  Imported before after n =
      (new : List Event) × (after ≡ before ++ new) × (length new ≡ n) × All IsImport new

  Imported-none : (l : List Event) → Imported l l 0
  Imported-none l = ([], sym (append-nil l), refl, tt)

  All-append {κ} : (P : Event → Type κ) (a b : List Event) → All P a → All P b → All P (a ++ b)
  All-append P [] b h k = k
  All-append P (x ∷ a) b h k = (h.0, All-append P a b h.1 k)

  Imported-trans :
      (a b c : List Event) (n k : ℕ) → Imported a b n → Imported b c k → Imported a c (n + k)
  Imported-trans a b c n k (x, e, l, h) (y, f, m, g) = (
    x ++ y,
    f ∙ ap (λ l. l ++ y) e ∙ append_assoc a x y,
    omega (arith, length-append x y, l, m),
    All-append IsImport x y h g,
  )

  note_import-Imported :
      (ev : Event) (p : Pull Store) (o : Store × Result Bool)
      → ((o.1 ≡ success true) → IsImport ev)
      → Imported p.notified
          (note_import env importer ev p o).0.notified
          (note_import env importer ev p o).1
  note_import-Imported ev p (st, success true) h = (ev ∷ [], refl, refl, (h refl, tt))
  note_import-Imported ev p (st, success false) h = Imported-none p.notified
  note_import-Imported ev p (st, failure e) h = Imported-none p.notified

  saved-success : (o : Store × Option Text) → (saved env importer o).1 ≡ success true → o.1 ≡ none
  saved-success (st, none) h = refl
  saved-success (st, some e) h = cc

  persist-success :
      (ev : Event) (st : Store)
      → (persist_imported_event env importer ev st).1 ≡ success true
      → (importer.has_event_id ev.id st ≡ success false) × ((importer.save_event ev st).1 ≡ none)
  unfolding persist_imported_event
  persist-success ev st h = by_answer (importer.has_event_id ev.id st) refl h
    where
      by_answer :
          (o : Result Bool)
          → importer.has_event_id ev.id st ≡ o
          → (save_unless env importer ev st o).1 ≡ success true
          → (importer.has_event_id ev.id st ≡ success false)
            × ((importer.save_event ev st).1 ≡ none)
      by_answer (failure e) q h = cc
      by_answer (success true) q h = cc
      by_answer (success false) q h = (q, saved-success (importer.save_event ev st) h)

  import_event-Imported :
      (p : Pull Store) (o : Link × Option Event)
      → Imported p.notified
          (import_event env importer p o).0.notified
          (import_event env importer p o).1
  import_event-Imported p (link, none) = Imported-none p.notified
  import_event-Imported p (link, some ev) = elim (Option-cases (importer.verify_sig ev)) [
    | inr (e, bad) ↦ rw (bad, import_event) (Imported-none p.notified)
    | inl good ↦
        rw (good, import_event)
          (note_import-Imported ev (record p { link = link })
            (persist_imported_event env importer ev p.store)
            (λ h.
              let (absent, kept) = persist-success ev p.store h in (good, (p.store, absent, kept))))
  ]

  note_import-le :
      (ev : Event) (p : Pull Store) (o : Store × Result Bool)
      → (note_import env importer ev p o).1 ≤ 1
  note_import-le ev p (st, success true) = omega arith
  note_import-le ev p (st, success false) = omega arith
  note_import-le ev p (st, failure e) = omega arith

  import_event-le :
      (p : Pull Store) (o : Link × Option Event) → (import_event env importer p o).1 ≤ 1
  import_event-le p (link, none) = omega arith
  import_event-le p (link, some ev) = elim (Option-cases (importer.verify_sig ev)) [
    | inr (e, bad) ↦ rw (bad, import_event) (omega arith)
    | inl good ↦
        rw (good, import_event)
          (note_import-le ev (record p { link = link })
            (persist_imported_event env importer ev p.store))
  ]

  fetch_needed-Imported :
      (ids : List Text) (p : Pull Store)
      → Imported p.notified
          (fetch_needed env importer ids p).0.notified
          (fetch_needed env importer ids p).1
  unfolding fetch_needed
  fetch_needed-Imported [] p = Imported-none p.notified
  fetch_needed-Imported (id ∷ ids) p =
      let had = req_event_by_id env id p.link in
      let o = import_event env importer p had in
      Imported-trans p.notified o.0.notified (fetch_needed env importer ids o.0).0.notified o.1
        (fetch_needed env importer ids o.0).1 (import_event-Imported p had)
        (fetch_needed-Imported ids o.0)

  fetch_needed-le :
      (ids : List Text) (p : Pull Store) → (fetch_needed env importer ids p).1 ≤ length ids
  unfolding fetch_needed
  fetch_needed-le [] p = omega arith
  fetch_needed-le (id ∷ ids) p =
      let had = req_event_by_id env id p.link in
      omega (arith, import_event-le p had, fetch_needed-le ids (import_event env importer p had).0)

module _ {Store Neg : Type 0} (env : Environment) (client : Client Store Neg)
    (importer : Importer Store) where
  -- What holds of a pull and its totals: as many notices as imports, and no more than ids needed.
  abbrev pub Accounts : Pull Store → Pulled env client importer → Type 0
  Accounts p (q, need, imported, e) =
      Imported env importer p.notified q.notified imported × (imported ≤ need)

  Accounts-none :
      (p q : Pull Store) (e : Option SyncError) → q.notified ≡ p.notified → Accounts p (q, 0, 0, e)
  Accounts-none p q e same = (
    subst (λ l. Imported env importer p.notified l 0) (sym same)
        (Imported-none env importer p.notified),
    omega arith,
  )

  -- A filter that fails has imported nothing.
  abbrev NoneOnError : Pulled env client importer → Type 0
  NoneOnError (q, need, imported, none) = Unit
  NoneOnError (q, need, imported, some e) = imported ≡ 0

  fetch_ended-Accounts :
      (p : Pull Store) (o : Link × Ended Neg)
      → Accounts p (fetch_ended env client importer p o)
        × NoneOnError (fetch_ended env client importer p o)
  fetch_ended-Accounts p (link, failed e) =
      (Accounts-none p (record p { link = link }) (some e) refl, refl)
  fetch_ended-Accounts p (link, ended neg) =
      let ids = client.need_ids neg in
      (
        (
          fetch_needed-Imported env importer ids (record p { link = link }),
          fetch_needed-le env importer ids (record p { link = link }),
        ),
        tt,
      )

  rounds_sent-Accounts :
      (url sub : Text) (neg : Neg) (p : Pull Store) (o : List Outgoing × Option Text)
      → Accounts p (rounds_sent env client importer url sub neg p o)
        × NoneOnError (rounds_sent env client importer url sub neg p o)
  rounds_sent-Accounts url sub neg p (sent, some e) = (
    Accounts-none p (record p { link = record p.link { sent = sent } }) (some (send_failed e)) refl,
    refl,
  )
  rounds_sent-Accounts url sub neg p (sent, none) =
      fetch_ended-Accounts p (sync_rounds env client url sub 0 neg p.link.reads sent)

  sync_items-Accounts :
      (url : Text) (f : Filter) (p : Pull Store) (o : Result Neg)
      → Accounts p (sync_items env client importer url f p o)
        × NoneOnError (sync_items env client importer url f p o)
  sync_items-Accounts url f p (failure e) = (Accounts-none p p (some (query_failed e)) refl, refl)
  sync_items-Accounts url f p (success local) =
      rounds_sent-Accounts url (client.sub_id p.link.sent) (client.start local).0 p
        (send_json env (neg_open (client.sub_id p.link.sent) f (client.start local).1) p.link.sent)

  next_filter-Accounts :
      (p : Pull Store) (go : Pull Store → Pulled env client importer)
      (o : Pulled env client importer)
      → ((q : Pull Store) → Accounts q (go q))
      → Accounts p o × NoneOnError o
      → Accounts p (next_filter env client importer go o)
  next_filter-Accounts p go (q, need, imported, some e) later ((h, few), nothing) =
      (subst (Imported env importer p.notified q.notified) nothing h, omega arith)
  next_filter-Accounts p go (q, need, imported, none) later ((h, few), _) =
      let (k, less) = later q in
      (
        Imported-trans env importer p.notified q.notified (go q).0.notified imported (go q).2 h k,
        omega (arith, few, less),
      )

  sync_filters-Accounts :
      (url : Text) (fs : List Filter) (p : Pull Store)
      → Accounts p (sync_filters env client importer url fs p)
  unfolding sync_filters sync_filter
  sync_filters-Accounts url [] p = Accounts-none p p none refl
  sync_filters-Accounts url (f ∷ fs) p =
      next_filter-Accounts p (λ q. sync_filters env client importer url fs q)
        (sync_filter env client importer url f p) (λ q. sync_filters-Accounts url fs q)
        (sync_items-Accounts url f p (client.query_sync_items f p.store))

  after_handshake-Accounts :
      (url : Text) (fs : List Filter) (p : Pull Store) (o : Link × Option SyncError)
      → Accounts p (after_handshake env client importer url fs p o)
  after_handshake-Accounts url fs p (link, some e) =
      Accounts-none p (record p { link = link }) (some e) refl
  after_handshake-Accounts url fs p (link, none) =
      sync_filters-Accounts url fs (record p { link = link })

  parsed-Accounts :
      (dial : Option Text) (auth_wait : ℤ) (url : Text) (p : Pull Store) (o : Result (List Filter))
      → Accounts p (parsed env client importer dial auth_wait url p o)
  parsed-Accounts dial auth_wait url p (failure e) = Accounts-none p p (some (parse_failed e)) refl
  parsed-Accounts (some e) auth_wait url p (success fs) =
      Accounts-none p p (some (dial_failed e)) refl
  parsed-Accounts none auth_wait url p (success fs) = elim (Bool-cases (ltb_ℤ (pos 0) auth_wait)) [
    | inl waits ↦
        rw (waits, parsed)
          (after_handshake-Accounts url fs p (handshake_auth env url p.link.reads p.link.sent))
    | inr at_once ↦ rw (at_once, parsed) (sync_filters-Accounts url fs p)
  ]

  -- Whatever the upstream sends, and with whichever error the pull ends: the plugins are told of as
  -- many events as the pull says that it imported, which are no more than the ids that it says it
  -- needed; and each of them has a good signature, and was saved in a state of the store that did not
  -- have its id.
  pub pull_upstream-Imported :
      (parse : Text → Result Filter) (dial : Option Text) (auth_wait : ℤ) (url : Text)
      (raw : List Text) (p : Pull Store)
      → let out = pull_upstream env client importer parse dial auth_wait url raw p in
        Imported env importer p.notified out.0.notified out.2 × (out.2 ≤ out.1)
  unfolding pull_upstream
  pull_upstream-Imported parse dial auth_wait url raw p = elim (Bool-cases (is_empty raw)) [
    | inl bare ↦
        rw (bare, pull_upstream) (Accounts-none p p (some (no_filters (bytes "no filters"))) refl)
    | inr some_raw ↦
        rw (some_raw, pull_upstream)
          (parsed-Accounts dial auth_wait url p (parse_upstream_filters parse raw))
  ]
