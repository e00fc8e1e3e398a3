-- ===== src/Relay/Neg/Leak.antt =====
-- What the count of the sessions does not cover.
use congee.Prelude.{
  ℕ, ◌+◌, ◌<◌, Text, length, length-append, is_empty, lookup, insert, is_some, ℤ, pos, ◌<ℤ◌, ◌-ℤ◌,
  List, [], ◌∷◌, ◌++◌, true, false, none, Result, success, eqb, ltb_ℤ, Option-cases, ◌≡◌, refl, ap,
  subst, ◌∙◌, arith, inl, inr, Bool-cases,
}
use congee.Config.{Config, nip77_max_concurrent_sessions}
use congee.Nostr.Wire.{marshal_relay_neg_msg}
use congee.Relay.Auth.{AuthState}
use congee.Relay.Neg.{
  Session, NegOpenJob, NegState, inc, neg_queue_capacity, sessions_of, remove_session, send_neg_err,
  neg_open_blocked, neg_open_reserve, set_session, put_sessions,
}
use congee.Relay.Neg.Run.{
  Load, send_neg_msg, new_session, first_round, load_items, check_count, run_neg_open_job,
  neg_worker,
}
use congee.Relay.Neg.Sessions.{total, live, live-put, length-insert-there}

below-inc : (a : ℤ) → a <ℤ inc a
unfolding ◌-ℤ◌
below-inc a = ground arith

above : (limit a : ℤ) → inc a ≡ limit → limit <ℤ inc (inc a)
unfolding ◌-ℤ◌
above limit a e = subst (λ l. l <ℤ inc (inc a)) e (below-inc (inc a))

module _ {Neg : Type 0} where
  -- Reserving for an id that has no session, with room in the queue.
  neg_open_reserve-queues :
      (job : NegOpenJob) (x : NegState Neg)
      → lookup job.sub_id (sessions_of job.conn_id x) ≡ none
      → length x.jobs < neg_queue_capacity
      → neg_open_reserve job x ≡ record x { active = inc x.active; jobs = x.jobs ++ job ∷ [] }
  unfolding neg_open_reserve remove_session
  neg_open_reserve-queues job x none_open room =
      rw (neg_open_reserve, remove_session, none_open) (ground arith)

  -- Two connections whose NEG-OPEN pass the tests in the same state, with one slot left, each for an
  -- id without a session, with room for both jobs in the queue: both reserve a slot, and the counter goes past the limit.
  pub neg_open_reserve-race :
      (cfg : Config) (auth auth' : AuthState) (pending : ℕ) (a b : NegOpenJob) (x : NegState Neg)
      → neg_open_blocked cfg auth pending a.sub_id a.filter x.active ≡ none
      → neg_open_blocked cfg auth' pending b.sub_id b.filter x.active ≡ none
      → inc x.active ≡ nip77_max_concurrent_sessions cfg
      → lookup a.sub_id (sessions_of a.conn_id x) ≡ none
      → lookup b.sub_id (sessions_of b.conn_id x) ≡ none
      → length x.jobs + 1 < neg_queue_capacity
      → nip77_max_concurrent_sessions cfg <ℤ (neg_open_reserve b (neg_open_reserve a x)).active
  unfolding sessions_of
  neg_open_reserve-race cfg auth auth' pending a b x pass pass' last none_a none_b room =
      rw
        (
          neg_open_reserve-queues a x none_a (omega (arith, room)),
          neg_open_reserve-queues b (record x { active = inc x.active; jobs = x.jobs ++ a ∷ [] })
              none_b (omega (arith, room, length-append x.jobs (a ∷ []))),
        )
        (above (nip77_max_concurrent_sessions cfg) x.active last)

module _ {Neg : Type 0} (reconcile : Neg → Text → Neg × Result Text) where
  send_neg_msg-counts :
      (c s out : Text) (x : NegState Neg)
      → ((send_neg_msg c s out x).active ≡ x.active)
        × ((send_neg_msg c s out x).jobs ≡ x.jobs)
        × ((send_neg_msg c s out x).sessions ≡ x.sessions)
  unfolding send_neg_msg send_neg_err
  send_neg_msg-counts c s out x = elim (Option-cases (marshal_relay_neg_msg s out)) [
    | inl refused ↦ rw (refused, send_neg_msg) (refl, refl, refl)
    | inr (b, made) ↦ rw (made, send_neg_msg) (refl, refl, refl)
  ]

  load_items-sets :
      (now : ℤ) (job : NegOpenJob) (items : Result (ℕ × Neg)) (n : ℕ) (neg : Neg) (out : Text)
      (x : NegState Neg)
      → items ≡ success (n, neg)
      → (reconcile neg job.initial_hex).1 ≡ success out
      → is_empty out ≡ false
      → load_items reconcile now job items x
        ≡ send_neg_msg job.conn_id job.sub_id out (
            set_session job.conn_id job.sub_id
              (new_session now n (reconcile neg job.initial_hex).0 x)
              (record x { next_uid = x.next_uid + 1 }))
  unfolding load_items first_round
  load_items-sets now job items n neg out x loaded round more =
      rw (loaded, load_items) (rw (round, first_round) (rw more refl))

  neg_worker-loads :
      (cfg : Config) (now : ℤ) (load : Load Neg) (job : NegOpenJob) (jobs : List NegOpenJob)
      (count : ℕ) (x : NegState Neg)
      → x.jobs ≡ job ∷ jobs
      → eqb x.slots 0 ≡ false
      → load.count ≡ success count
      → ltb_ℤ cfg.nip77.max_records_per_query (pos count) ≡ false
      → neg_worker reconcile cfg now load x
        ≡ load_items reconcile now job load.items (record x { jobs = jobs })
  unfolding neg_worker run_neg_open_job check_count
  neg_worker-loads cfg now load job jobs count x queued free counted few =
      elim (Bool-cases (ltb_ℤ (pos 0) cfg.nip77.max_records_per_query)) [
        | inl bounded ↦ rw (queued, neg_worker, free, bounded, counted, check_count, few) refl
        | inr unbounded ↦ rw (queued, neg_worker, free, unbounded) refl
      ]

  same_total :
      (c s : Text) (sess : Session Neg) (x : NegState Neg)
      → is_some (lookup s (sessions_of c x)) ≡ true
      → total (set_session c s sess x).sessions ≡ total x.sessions
  unfolding set_session put_sessions live
  same_total c s sess x there =
      let m = sessions_of c x in
      omega (arith, live-put c (insert s sess m) x, length-insert-there s sess m there)

  -- A job that makes a session under an id that has one replaces it: the job is gone from the queue
  -- and there are as many sessions as before, but the counter stays, and with it a slot that no
  -- session holds.
  pub neg_worker-replaces :
      (cfg : Config) (now : ℤ) (load : Load Neg) (job : NegOpenJob) (jobs : List NegOpenJob)
      (n count : ℕ) (neg : Neg) (out : Text) (x : NegState Neg)
      → x.jobs ≡ job ∷ jobs
      → eqb x.slots 0 ≡ false
      → load.count ≡ success count
      → ltb_ℤ cfg.nip77.max_records_per_query (pos count) ≡ false
      → load.items ≡ success (n, neg)
      → (reconcile neg job.initial_hex).1 ≡ success out
      → is_empty out ≡ false
      → is_some (lookup job.sub_id (sessions_of job.conn_id x)) ≡ true
      → let y = neg_worker reconcile cfg now load x in
        (y.active ≡ x.active) × (y.jobs ≡ jobs) × (total y.sessions ≡ total x.sessions)
  unfolding sessions_of set_session
  neg_worker-replaces cfg now load job jobs n count neg out x queued free counted few items round
        more there =
      let y = record x { jobs = jobs } in
      let made = record y { next_uid = x.next_uid + 1 } in
      let sess = new_session now n (reconcile neg job.initial_hex).0 y in
      let set = set_session job.conn_id job.sub_id sess made in
      let (active, left, sessions) = send_neg_msg-counts job.conn_id job.sub_id out set in
      rw
        (
          neg_worker-loads cfg now load job jobs count x queued free counted few,
          load_items-sets now job load.items n neg out y items round more,
        )
        (active, left, ap total sessions ∙ same_total job.conn_id job.sub_id sess made there)
