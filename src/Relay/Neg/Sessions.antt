-- ===== src/Relay/Neg/Sessions.antt =====
-- The count of the reconciliation sessions, over every run of the handlers, the worker, the timers
-- and the teardowns.
use congee.Prelude.{
  ℕ, ◌+◌, ◌≤◌, Text, ltb, length, length-append, length-insert, length-delete-le, is_some, Map,
  lookup, insert, delete, ℤ, pos, ◌≤ℤ◌, leb_ℤ, ◌-ℤ◌, [], ◌∷◌, ◌++◌, true, false, ◌≡◌, arith, inl,
  inr, Bool-cases, ◌==◌,
}
use congee.Relay.Outbox.{Net}
use congee.Relay.Neg.{
  Session, NegOpenJob, NegState, inc, dec, neg_queue_capacity, entries_or_empty, sessions_of,
  put_sessions, remove_session, remove_session_if, set_session, send_neg_err, release_slot,
  is_session, neg_open_reserve,
}

-- What decrementing and incrementing do to a bound.
dec-le : (a : ℤ) (n : ℕ) → pos n ≤ℤ a → (m : ℕ) → m + 1 ≤ n → pos m ≤ℤ dec a
unfolding ◌-ℤ◌
dec-le a n h m k = ground arith

dec-below : (a : ℤ) → dec a ≤ℤ a
unfolding ◌-ℤ◌
dec-below a = ground arith

inc-le : (a : ℤ) (n : ℕ) → pos n ≤ℤ a → pos (n + 1) ≤ℤ inc a
unfolding ◌-ℤ◌
inc-le a n h = ground arith

inc-below : (a c b : ℤ) → a ≤ℤ c → leb_ℤ b c ≡ false → inc a ≤ℤ b
unfolding ◌-ℤ◌
inc-below a c b lower h = ground arith

module _ {Neg : Type 0} where
  unfoldable pub total : Map (Map (Session Neg)) → ℕ
  total [] = 0
  total ((_, m) ∷ conns) = length m + total conns

  -- The sessions that are open and the jobs that wait.
  unfoldable pub live : NegState Neg → ℕ
  unfolding total
  live x = total x.sessions + length x.jobs

  -- The counter covers what is live and `reserved` more, and is within the limit.
  pub record Fits (limit : ℤ) (reserved : ℕ) (x : NegState Neg) : Type 0 where
    pub covered : pos (live x + reserved) ≤ℤ x.active
    pub within : x.active ≤ℤ limit

  total-insert :
      (c : Text) (m : Map (Session Neg)) (conns : Map (Map (Session Neg)))
      → total (insert c m conns) + length (entries_or_empty (lookup c conns))
        ≡ total conns + length m
  unfolding total insert lookup
  total-insert c m [] = omega arith
  total-insert c m ((d, n) ∷ conns) = elim (Bool-cases (d == c)) [
    | inl same ↦ rw same (omega arith)
    | inr other ↦ rw other (omega (arith, total-insert c m conns))
  ]

  pub live-put :
      (c : Text) (m : Map (Session Neg)) (x : NegState Neg)
      → live (put_sessions c m x) + length (sessions_of c x) ≡ live x + length m
  unfolding live put_sessions sessions_of
  live-put c m x = omega (arith, total-insert c m x.sessions)

  length-delete-lt :
      (s : Text) (m : Map (Session Neg))
      → is_some (lookup s m) ≡ true
      → length (delete s m) + 1 ≤ length m
  unfolding lookup delete
  length-delete-lt s [] h = cc
  length-delete-lt s ((j, v) ∷ m) h = ground (arith, length-delete-lt s m, length-delete-le s m)

  length-insert-le :
      (s : Text) (v : Session Neg) (m : Map (Session Neg)) → length (insert s v m) ≤ length m + 1
  length-insert-le s v m = ground (arith, length-insert s v m)

  pub length-insert-there :
      (s : Text) (v : Session Neg) (m : Map (Session Neg))
      → is_some (lookup s m) ≡ true
      → length (insert s v m) ≡ length m
  length-insert-there s v m there = ground (arith, length-insert s v m)

  pub remove_session-Fits :
      (limit : ℤ) (k : ℕ) (c s : Text) (x : NegState Neg)
      → Fits limit k x
      → Fits limit k (remove_session c s x)
  unfolding remove_session live put_sessions
  remove_session-Fits limit k c s x h = elim (Bool-cases (is_some (lookup s (sessions_of c x)))) [
    | inr absent ↦ rw absent h
    | inl found ↦
        let put = live-put c (delete s (sessions_of c x)) x in
        let fewer = length-delete-lt s (sessions_of c x) found in
        rw found (record {
          covered = dec-le x.active (live x + k) h.covered _ (omega (arith, put, fewer));
          within = omega (arith, h.within, dec-below x.active);
        })
  ]

  pub remove_session_if-Fits :
      (limit : ℤ) (k : ℕ) (c s : Text) (uid : ℕ) (x : NegState Neg)
      → Fits limit k x
      → Fits limit k (remove_session_if c s uid x)
  unfolding remove_session_if
  remove_session_if-Fits limit k c s uid x h =
      elim (Bool-cases (is_session uid (lookup s (sessions_of c x)))) [
        | inl same ↦ rw (same, remove_session_if) (remove_session-Fits limit k c s x h)
        | inr other ↦ rw (other, remove_session_if) h
      ]

  pub net-Fits :
      (limit : ℤ) (k : ℕ) (net : Net) (x : NegState Neg)
      → Fits limit k x
      → Fits limit k (record x { net = net })
  unfolding live
  net-Fits limit k net x h = record { covered = h.covered; within = h.within }

  pub send_neg_err-Fits :
      (limit : ℤ) (k : ℕ) (c s reason : Text) (x : NegState Neg)
      → Fits limit k x
      → Fits limit k (send_neg_err c s reason x)
  unfolding send_neg_err
  send_neg_err-Fits limit k c s reason x h = net-Fits limit k _ x h

  pub release_slot-Fits :
      (limit : ℤ) (k : ℕ) (x : NegState Neg) → Fits limit (k + 1) x → Fits limit k (release_slot x)
  unfolding live
  release_slot-Fits limit k x h = record {
    covered = dec-le x.active (live x + (k + 1)) h.covered _ (omega arith);
    within = omega (arith, h.within, dec-below x.active);
  }

  pub set_session-Fits :
      (limit : ℤ) (k : ℕ) (c s : Text) (sess : Session Neg) (x : NegState Neg)
      → Fits limit (k + 1) x
      → Fits limit k (set_session c s sess x)
  unfolding set_session live put_sessions
  set_session-Fits limit k c s sess x h = record {
    covered = omega (
      arith,
      live-put c (insert s sess (sessions_of c x)) x,
      length-insert-le s sess (sessions_of c x),
      h.covered,
    );
    within = h.within;
  }

  -- Writing back a session that is there.
  pub rewrite_session-Fits :
      (limit : ℤ) (k : ℕ) (c s : Text) (sess : Session Neg) (x : NegState Neg)
      → is_some (lookup s (sessions_of c x)) ≡ true
      → Fits limit k x
      → Fits limit k (set_session c s sess x)
  unfolding set_session live put_sessions
  rewrite_session-Fits limit k c s sess x there h = record {
    covered = omega (
      arith,
      live-put c (insert s sess (sessions_of c x)) x,
      length-insert-there s sess (sessions_of c x) there,
      h.covered,
    );
    within = h.within;
  }

  reserve-Fits :
      (limit : ℤ) (k : ℕ) (before : ℤ) (x : NegState Neg)
      → x.active ≤ℤ before
      → leb_ℤ limit before ≡ false
      → Fits limit k x
      → Fits limit (k + 1) (record x { active = inc x.active })
  unfolding live
  reserve-Fits limit k before x lower room h = record {
    covered = omega (arith, inc-le x.active (live x + k) h.covered);
    within = inc-below x.active before limit lower room;
  }

  queue-Fits :
      (limit : ℤ) (k : ℕ) (job : NegOpenJob) (x : NegState Neg)
      → Fits limit (k + 1) x
      → Fits limit k (record x { jobs = x.jobs ++ job ∷ [] })
  unfolding live
  queue-Fits limit k job x h = record {
    covered = omega (arith, length-append x.jobs (job ∷ []), h.covered);
    within = h.within;
  }

  remove_session-below : (c s : Text) (x : NegState Neg) → (remove_session c s x).active ≤ℤ x.active
  unfolding remove_session
  remove_session-below c s x = elim (Bool-cases (is_some (lookup s (sessions_of c x)))) [
    | inl found ↦ rw (remove_session, found) (dec-below x.active)
    | inr absent ↦ rw (remove_session, absent) (omega arith)
  ]

  pub neg_open_reserve-Fits :
      (limit : ℤ) (k : ℕ) (job : NegOpenJob) (x : NegState Neg)
      → leb_ℤ limit x.active ≡ false
      → Fits limit k x
      → Fits limit k (neg_open_reserve job x)
  unfolding neg_open_reserve
  neg_open_reserve-Fits limit k job x room h =
      elim (Bool-cases (ltb (length x'.jobs) neg_queue_capacity)) [
        | inl fits ↦
            rw (neg_open_reserve, fits)
              (queue-Fits limit k job (record x' { active = inc x'.active }) reserved)
        | inr full ↦
            rw (neg_open_reserve, full)
              (send_neg_err-Fits limit k job.conn_id job.sub_id _ _
                (release_slot-Fits limit k _ reserved))
      ]
    where
      x' : NegState Neg
      x' = remove_session job.conn_id job.sub_id x

      reserved : Fits limit (k + 1) (record x' { active = inc x'.active })
      reserved =
          reserve-Fits limit k x.active x' (remove_session-below job.conn_id job.sub_id x) room
            (remove_session-Fits limit k job.conn_id job.sub_id x h)
