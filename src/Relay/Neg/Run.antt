-- ===== src/Relay/Neg/Run.antt =====
-- internal/relay/nip77.go: the job of a NEG-OPEN, the handlers of NEG-MSG and NEG-CLOSE, the idle
-- timer, and what the teardown of a connection (internal/relay/relay.go) does to its sessions.
use congee.Prelude.{
  ℕ, ◌+◌, Text, bytes, eqb, length, is_empty, lookup, ℤ, pos, pos_part, ltb_ℤ, ◌-ℤ◌, [], ◌∷◌, ◌++◌,
  not, none, some, Result, success, failure, if◌then◌else◌,
}
use congee.Config.{Config, nip_enabled, nip77_max_concurrent_loads}
use congee.Nostr.Wire.{marshal_relay_neg_msg}
use congee.Relay.Outbox.{Net, send}
use congee.Relay.Neg.{
  Session, NegOpenJob, NegState, decimal, sessions_of, put_sessions, remove_session,
  remove_session_if, set_session, send_neg_err, release_slot, is_session,
}

-- What the store answers a job: the count of the records, and the records, of which go-nostr makes
-- a `Neg`.
pub record Load (Neg : Type 0) : Type 0 where
  pub count : Result ℕ
  pub items : Result (ℕ × Neg)

abbrev too_big : ℕ → ℤ → Text
too_big n max =
    bytes "blocked: this query is too big ("
    ++ (decimal n ++ (bytes " records, max " ++ (decimal (pos_part max) ++ bytes ")")))

module _ {Neg : Type 0} where
  -- The answer of a round.
  unfoldable pub send_neg_msg : Text → Text → Text → NegState Neg → NegState Neg
  unfolding marshal_relay_neg_msg send_neg_err send
  send_neg_msg c s out x = elim (marshal_relay_neg_msg s out) [
    | none ↦ send_neg_err c s (bytes "error: marshal failed") x
    | some b ↦ record x { net = (send x.net c b).0 }
  ]

  -- A job that makes no session gives its slot back and says why.
  unfoldable pub give_up : Text → Text → Text → NegState Neg → NegState Neg
  unfolding send_neg_err
  give_up c s reason x = send_neg_err c s reason (release_slot x)

  unfoldable pub new_session : ℤ → ℕ → Neg → NegState Neg → Session Neg
  new_session now n neg x = record {
    uid = x.next_uid;
    record_count = n;
    opened_unix = now;
    rounds = 0;
    last_act_unix = now;
    neg = neg;
  }

  -- The first round of a job.
  unfoldable pub first_round : ℤ → NegOpenJob → ℕ → Neg × Result Text → NegState Neg → NegState Neg
  unfolding give_up new_session set_session send_neg_msg
  first_round now job n (neg, failure e) x = give_up job.conn_id job.sub_id (bytes "error: " ++ e) x
  first_round now job n (neg, success out) x =
      let made = record x { next_uid = x.next_uid + 1 } in
      let kept =
        if not (is_empty out)
        then set_session job.conn_id job.sub_id (new_session now n neg x) made
        else release_slot made in
      send_neg_msg job.conn_id job.sub_id out kept

  -- `touchActivity`, and the state of the reconciliation after a round.
  unfoldable pub touch_activity : ℤ → Neg → Session Neg → Session Neg
  touch_activity now neg sess = record sess {
    last_act_unix = now;
    rounds = sess.rounds + 1;
    neg = neg;
  }

  unfoldable pub next_round : Text → Text → ℕ → Result Text → NegState Neg → NegState Neg
  unfolding remove_session remove_session_if send_neg_err send_neg_msg
  next_round c s uid (failure e) x =
      send_neg_err c s (bytes "error: " ++ e) (remove_session_if c s uid x)
  next_round c s uid (success out) x =
      send_neg_msg c s out (if is_empty out then remove_session c s x else x)

module _ {Neg : Type 0} (reconcile : Neg → Text → Neg × Result Text) where
  unfoldable pub load_items : ℤ → NegOpenJob → Result (ℕ × Neg) → NegState Neg → NegState Neg
  unfolding give_up first_round
  load_items now job (failure e) x = give_up job.conn_id job.sub_id (bytes "error: query failed") x
  load_items now job (success (n, neg)) x = first_round now job n (reconcile neg job.initial_hex) x

  unfoldable pub check_count :
      ℤ → ℤ → NegOpenJob → Load Neg → Result ℕ → NegState Neg → NegState Neg
  unfolding give_up load_items
  check_count now max job load (failure e) x =
      give_up job.conn_id job.sub_id (bytes "error: count failed") x
  check_count now max job load (success n) x =
      if ltb_ℤ max (pos n)
      then give_up job.conn_id job.sub_id (too_big n max) x
      else load_items now job load.items x

  -- `runNegOpenJob`: the slot that it takes to load is put back at its end.
  unfoldable pub run_neg_open_job : Config → ℤ → Load Neg → NegOpenJob → NegState Neg → NegState Neg
  unfolding give_up check_count load_items
  run_neg_open_job cfg now load job x =
      let max = cfg.nip77.max_records_per_query in
      if eqb x.slots 0
      then give_up job.conn_id job.sub_id (bytes "blocked: sync load capacity reached") x
      else if ltb_ℤ (pos 0) max
      then check_count now max job load load.count x
      else load_items now job load.items x

  -- `worker`
  unfoldable pub neg_worker : Config → ℤ → Load Neg → NegState Neg → NegState Neg
  unfolding run_neg_open_job
  neg_worker cfg now load x = elim x.jobs [
    | [] ↦ x
    | job ∷ jobs ↦ run_neg_open_job cfg now load job (record x { jobs = jobs })
  ]

  unfoldable pub handle_neg_msg : Config → ℤ → Text → Text → Text → NegState Neg → NegState Neg
  unfolding nip_enabled sessions_of set_session touch_activity next_round send_neg_err
  handle_neg_msg cfg now c s message_hex x =
      if not (nip_enabled (pos 77) cfg)
      then send_neg_err c s (bytes "blocked: NIP-77 is not enabled") x
      else elim (lookup s (sessions_of c x)) [
        | none ↦ send_neg_err c s (bytes "closed: unknown subscription") x
        | some sess ↦
            let (neg, r) = reconcile sess.neg message_hex in
            next_round c s sess.uid r (set_session c s (touch_activity now neg sess) x)
      ]

unfoldable pub handle_neg_close : {Neg : Type 0} → Text → Text → NegState Neg → NegState Neg
unfolding remove_session
handle_neg_close c s x = remove_session c s x

-- The timer of session `uid` fires.
unfoldable pub neg_idle : {Neg : Type 0} → Text → Text → ℕ → NegState Neg → NegState Neg
unfolding remove_session_if sessions_of send_neg_err
neg_idle c s uid x =
    if is_session uid (lookup s (sessions_of c x))
    then send_neg_err c s (bytes "closed: you took too long to respond!")
        (remove_session_if c s uid x)
    else x

-- `count`, `closeAll` and the subtraction at the end of `serveWS`.
unfoldable pub close_sessions : {Neg : Type 0} → Text → NegState Neg → NegState Neg
unfolding sessions_of put_sessions
close_sessions c x = record (put_sessions c [] x) {
  active = x.active -ℤ pos (length (sessions_of c x));
}

-- The state of a relay that starts.
unfoldable pub new_neg_state : {Neg : Type 0} → Config → Net → NegState Neg
unfolding nip77_max_concurrent_loads
new_neg_state cfg net = record {
  active = pos 0;
  sessions = [];
  jobs = [];
  slots = pos_part (nip77_max_concurrent_loads cfg);
  next_uid = 0;
  net = net;
}
