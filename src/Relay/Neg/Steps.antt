-- ===== src/Relay/Neg/Steps.antt =====
-- Each step of a job, and each message of a session, keeps the counter of reconciliation sessions right.
use congee.Prelude.{
  ℕ, ◌+◌, Text, eqb, is_empty, lookup, ℤ, pos, ltb_ℤ, List, [], ◌∷◌, Result, success, failure, ◌≡◌,
  refl, arith, inl, inr, Bool-cases, Option-cases,
}
use congee.Config.{Config, nip_enabled}
use congee.Nostr.Wire.{marshal_relay_neg_msg}
use congee.Relay.Neg.{NegOpenJob, NegState, sessions_of}
use congee.Relay.Neg.Run.{
  Load, send_neg_msg, give_up, first_round, load_items, check_count, run_neg_open_job, neg_worker,
  touch_activity, next_round, handle_neg_msg,
}
use congee.Relay.Neg.Sessions.{
  live, Fits, remove_session-Fits, remove_session_if-Fits, net-Fits, send_neg_err-Fits,
  release_slot-Fits, set_session-Fits, rewrite_session-Fits,
}

module _ {Neg : Type 0} where
  send_neg_msg-Fits :
      (limit : ℤ) (k : ℕ) (c s out : Text) (x : NegState Neg)
      → Fits limit k x
      → Fits limit k (send_neg_msg c s out x)
  unfolding send_neg_msg
  send_neg_msg-Fits limit k c s out x h = elim (Option-cases (marshal_relay_neg_msg s out)) [
    | inl refused ↦ rw (refused, send_neg_msg) (send_neg_err-Fits limit k c s _ x h)
    | inr (b, made) ↦ rw (made, send_neg_msg) (net-Fits limit k _ x h)
  ]

  give_up-Fits :
      (limit : ℤ) (k : ℕ) (c s reason : Text) (x : NegState Neg)
      → Fits limit (k + 1) x
      → Fits limit k (give_up c s reason x)
  unfolding give_up
  give_up-Fits limit k c s reason x h =
      send_neg_err-Fits limit k c s reason _ (release_slot-Fits limit k x h)

  uid-Fits :
      (limit : ℤ) (k n : ℕ) (x : NegState Neg)
      → Fits limit k x
      → Fits limit k (record x { next_uid = n })
  unfolding live
  uid-Fits limit k n x h = record { covered = h.covered; within = h.within }

  first_round-Fits :
      (k : ℕ) (limit now : ℤ) (job : NegOpenJob) (n : ℕ) (round : Neg × Result Text)
      (x : NegState Neg)
      → Fits limit (k + 1) x
      → Fits limit k (first_round now job n round x)
  unfolding first_round
  first_round-Fits k limit now job n (neg, failure e) x h =
      give_up-Fits limit k job.conn_id job.sub_id _ x h
  first_round-Fits k limit now job n (neg, success out) x h =
      let made = uid-Fits limit (k + 1) (x.next_uid + 1) x h in
      send_neg_msg-Fits limit k job.conn_id job.sub_id out _ (elim (Bool-cases (is_empty out)) [
        | inl over ↦ rw over (release_slot-Fits limit k _ made)
        | inr more ↦ rw more (set_session-Fits limit k job.conn_id job.sub_id _ _ made)
      ])

  dequeue-Fits :
      (k : ℕ) (limit : ℤ) (job : NegOpenJob) (jobs : List NegOpenJob) (x : NegState Neg)
      → x.jobs ≡ job ∷ jobs
      → Fits limit k x
      → Fits limit (k + 1) (record x { jobs = jobs })
  unfolding live
  dequeue-Fits k limit job jobs x e h = record {
    covered = ground (arith, h.covered, e);
    within = h.within;
  }

  next_round-Fits :
      (k : ℕ) (limit : ℤ) (c s : Text) (uid : ℕ) (r : Result Text) (x : NegState Neg)
      → Fits limit k x
      → Fits limit k (next_round c s uid r x)
  unfolding next_round
  next_round-Fits k limit c s uid (failure e) x h =
      send_neg_err-Fits limit k c s _ _ (remove_session_if-Fits limit k c s uid x h)
  next_round-Fits k limit c s uid (success out) x h =
      send_neg_msg-Fits limit k c s out _ (elim (Bool-cases (is_empty out)) [
        | inl over ↦ rw over (remove_session-Fits limit k c s x h)
        | inr more ↦ rw more h
      ])

module _ {Neg : Type 0} (reconcile : Neg → Text → Neg × Result Text) where
  load_items-Fits :
      (k : ℕ) (limit now : ℤ) (job : NegOpenJob) (items : Result (ℕ × Neg)) (x : NegState Neg)
      → Fits limit (k + 1) x
      → Fits limit k (load_items reconcile now job items x)
  unfolding load_items
  load_items-Fits k limit now job (failure e) x h =
      give_up-Fits limit k job.conn_id job.sub_id _ x h
  load_items-Fits k limit now job (success (n, neg)) x h =
      first_round-Fits k limit now job n (reconcile neg job.initial_hex) x h

  check_count-Fits :
      (k : ℕ) (limit now max : ℤ) (job : NegOpenJob) (load : Load Neg) (count : Result ℕ)
      (x : NegState Neg)
      → Fits limit (k + 1) x
      → Fits limit k (check_count reconcile now max job load count x)
  unfolding check_count
  check_count-Fits k limit now max job load (failure e) x h =
      give_up-Fits limit k job.conn_id job.sub_id _ x h
  check_count-Fits k limit now max job load (success n) x h =
      elim (Bool-cases (ltb_ℤ max (pos n))) [
        | inl big ↦ rw big (give_up-Fits limit k job.conn_id job.sub_id _ x h)
        | inr fits ↦ rw fits (load_items-Fits k limit now job load.items x h)
      ]

  run_neg_open_job-Fits :
      (k : ℕ) (cfg : Config) (limit now : ℤ) (load : Load Neg) (job : NegOpenJob) (x : NegState Neg)
      → Fits limit (k + 1) x
      → Fits limit k (run_neg_open_job reconcile cfg now load job x)
  unfolding run_neg_open_job
  run_neg_open_job-Fits k cfg limit now load job x h = elim (Bool-cases (eqb x.slots 0)) [
    | inl busy ↦ rw busy (give_up-Fits limit k job.conn_id job.sub_id _ x h)
    | inr free ↦ elim (Bool-cases (ltb_ℤ (pos 0) cfg.nip77.max_records_per_query)) [
      | inl bounded ↦
          rw (free, bounded)
            (check_count-Fits k limit now cfg.nip77.max_records_per_query job load load.count x h)
      | inr unbounded ↦ rw (free, unbounded) (load_items-Fits k limit now job load.items x h)
    ]
  ]

  pub neg_worker-Fits :
      (k : ℕ) (cfg : Config) (limit now : ℤ) (load : Load Neg) (x : NegState Neg)
      → Fits limit k x
      → Fits limit k (neg_worker reconcile cfg now load x)
  unfolding neg_worker
  neg_worker-Fits k cfg limit now load x h = by_jobs x.jobs refl
    where
      by_jobs :
          (l : List NegOpenJob) → x.jobs ≡ l → Fits limit k (neg_worker reconcile cfg now load x)
      by_jobs [] e = rw (e, neg_worker) h
      by_jobs (job ∷ jobs) e =
          rw (e, neg_worker)
            (run_neg_open_job-Fits k cfg limit now load job (record x { jobs = jobs })
              (dequeue-Fits k limit job jobs x e h))

  pub handle_neg_msg-Fits :
      (k : ℕ) (cfg : Config) (limit now : ℤ) (c s message_hex : Text) (x : NegState Neg)
      → Fits limit k x
      → Fits limit k (handle_neg_msg reconcile cfg now c s message_hex x)
  unfolding handle_neg_msg
  handle_neg_msg-Fits k cfg limit now c s message_hex x h =
      elim (Bool-cases (nip_enabled (pos 77) cfg)) [
        | inr off ↦ rw off (send_neg_err-Fits limit k c s _ x h)
        | inl on ↦ elim (Option-cases (lookup s (sessions_of c x))) [
          | inl unknown ↦ rw (on, unknown) (send_neg_err-Fits limit k c s _ x h)
          | inr (sess, there) ↦
              rw (on, there)
                (next_round-Fits k limit c s sess.uid (reconcile sess.neg message_hex).1 _ (
                  rewrite_session-Fits limit k c s
                    (touch_activity now (reconcile sess.neg message_hex).0 sess) x (rw there refl)
                    h))
        ]
      ]
