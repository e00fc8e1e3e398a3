-- ===== src/Nip77/Upstream/Scheduler/Locks.antt =====
-- internal/nip77/upstream/scheduler.go: the locks of the jobs' names, and what their status shows.
use congee.Prelude.{
  ℕ, Text, ◌==◌, ==_iff, ==_refl, lookup, insert, lookup-insert, Map, In, NoDup, ℤ, List, [], ◌∷◌,
  ◌++◌, Bool, true, false, Option, none, some, ◌≡◌, refl, ap, sym, subst, ◌∙◌, ◌↔◌, ◌⊎◌, inl, inr,
  arith, Bool-cases, if◌then◌else◌,
}
use congee.Nip77.Upstream.{SyncError}
use congee.Nip77.Upstream.Scheduler.{
  UpstreamEntry, JobStatus, SchedulerState, flag, status_or_new, begin_job, update_status,
  noted_result, idle_again,
}

-- What the admin page shows of a name.
abbrev pub shown : Option JobStatus → Bool
shown none = false
shown (some st) = st.running

In-middle : (a b : Text) (xs ys : List Text) → In a (xs ++ b ∷ ys) ↔ ((b ≡ a) ⊎ In a (xs ++ ys))
In-middle a b [] ys = (λ i. i, λ i. i)
In-middle a b (x ∷ xs) ys = ground (arith, In-middle a b xs ys)

pub NoDup-middle :
    (b : Text) (xs ys : List Text) → NoDup (xs ++ b ∷ ys) → NoDup (xs ++ ys) × (¬ In b (xs ++ ys))
NoDup-middle b [] ys d = (d.1, d.0)
NoDup-middle b (x ∷ xs) ys d =
    let (rest, absent) = NoDup-middle b xs ys d.1 in
    (
      (λ i. d.0 ((In-middle x b xs ys).1 (inr i)), rest),
      λ i. elim i [ inl e ↦ d.0 ((In-middle x b xs ys).1 (inl (sym e))) | inr i ↦ absent i ],
    )

abbrev map_status : (JobStatus → JobStatus) → Option JobStatus → Option JobStatus
map_status f none = none
map_status f (some st) = some (f st)

module _ (f : JobStatus → JobStatus) (name n : Text) (m : Map JobStatus) where
  shown_update :
      (o : Option JobStatus)
      → lookup name m ≡ o
      → shown (lookup n (update_status f name o m))
        ≡ (if name == n then shown (map_status f o) else shown (lookup n m))
  shown_update none q = elim (Bool-cases (name == n)) [
    | inl same ↦ rw same (ap shown (subst (λ k. lookup k m ≡ none) ((==_iff name n).0 same) q))
    | inr other ↦ rw other refl
  ]
  shown_update (some st) q = elim (Bool-cases (name == n)) [
    | inl same ↦ rw (lookup-insert name n (f st) m, same) refl
    | inr other ↦ rw (lookup-insert name n (f st) m, other) refl
  ]

-- A change of a status that leaves `Running` alone.
pub shown_kept :
    (f : JobStatus → JobStatus) (name n : Text) (m : Map JobStatus)
    → ((o : Option JobStatus) → shown (map_status f o) ≡ shown o)
    → shown (lookup n (update_status f name (lookup name m) m)) ≡ shown (lookup n m)
shown_kept f name n m keeps = elim (Bool-cases (name == n)) [
  | inl same ↦
      rw (shown_update f name n m (lookup name m) refl, same)
        (keeps (lookup name m) ∙ ap (λ k. shown (lookup k m)) ((==_iff name n).0 same))
  | inr other ↦ rw (shown_update f name n m (lookup name m) refl, other) refl
]

pub noted_result-shown :
    (now : ℤ) (u : UpstreamEntry) (need imported : ℕ) (err : Option SyncError)
    (o : Option JobStatus)
    → shown (map_status (noted_result now u need imported err) o) ≡ shown o
noted_result-shown now u need imported err none = refl
noted_result-shown now u need imported err (some st) = refl

idle_again-shown : (o : Option JobStatus) → shown (map_status idle_again o) ≡ false
idle_again-shown none = refl
idle_again-shown (some st) = refl

pub begin_job_lem :
    (u : UpstreamEntry) (x y : SchedulerState)
    → begin_job u x ≡ some y
    → (flag (lookup u.name x.running) ≡ false)
      × (y ≡ record {
        status =
            insert u.name
              (record (status_or_new u (lookup u.name x.status)) { running = true })
              x.status;
        running = insert u.name true x.running;
      })
unfolding begin_job
begin_job_lem u x y h = elim (Bool-cases (flag (lookup u.name x.running))) [
  | inl busy ↦ cc (rw (busy, begin_job) at h)
  | inr idle ↦ (idle, ground arith)
]

-- What a name's lock is after it was set.
flag-insert :
    (name n : Text) (b : Bool) (m : Map Bool)
    → flag (lookup n (insert name b m)) ≡ (if name == n then b else flag (lookup n m))
flag-insert name n b m = rw (lookup-insert name n b m) (ground arith)

-- The lock after it was set for a name that joins or leaves the active ones.
pub joins :
    (name n : Text) (active : List Text) (m : Map Bool)
    → ((flag (lookup n m) ≡ true) ↔ In n active)
    → (flag (lookup n (insert name true m)) ≡ true) ↔ In n (name ∷ active)
joins name n active m h = elim (Bool-cases (name == n)) [
  | inl same ↦ (λ _. inl ((==_iff name n).0 same), λ _. rw (flag-insert name n true m, same) refl)
  | inr other ↦ (
    λ t. inr (h.0 (subst (λ b. b ≡ true) (flag-insert name n true m ∙ rw other refl) t)),
    λ i. elim i [
      | inl e ↦ cc (rw (e, ==_refl n) at other)
      | inr i ↦ rw (flag-insert name n true m, other) (h.1 i)
    ],
  )
]

pub leaves :
    (name n : Text) (before after : List Text) (m : Map Bool)
    → NoDup (before ++ name ∷ after)
    → ((flag (lookup n m) ≡ true) ↔ In n (before ++ name ∷ after))
    → (flag (lookup n (insert name false m)) ≡ true) ↔ In n (before ++ after)
leaves name n before after m d h = elim (Bool-cases (name == n)) [
  | inl same ↦ (
    λ t. cc (rw (flag-insert name n false m, same) at t),
    λ i. absurd (
        (NoDup-middle name before after d).1
          (subst (λ k. In k (before ++ after)) (sym ((==_iff name n).0 same)) i)),
  )
  | inr other ↦ (
    λ t.
        elim ((In-middle n name before after).0
          (h.0 (subst (λ b. b ≡ true) (flag-insert name n false m ∙ rw other refl) t))) [
            | inl e ↦ cc (rw (e, ==_refl n) at other)
            | inr i ↦ i
          ],
    λ i. rw (flag-insert name n false m, other) (h.1 ((In-middle n name before after).1 (inr i))),
  )
]

module _ (name n : Text) (m : Map JobStatus) (r : Map Bool)
    (agree : shown (lookup n m) ≡ flag (lookup n r)) where
  pub shown_begun :
      (st : JobStatus)
      → shown (lookup n (insert name (record st { running = true }) m))
        ≡ flag (lookup n (insert name true r))
  shown_begun st = elim (Bool-cases (name == n)) [
    | inl same ↦ rw (lookup-insert {V = JobStatus}, flag-insert name n true r, same) refl
    | inr other ↦ rw (lookup-insert {V = JobStatus}, flag-insert name n true r, other) agree
  ]

  pub shown_ended :
      shown (lookup n (update_status idle_again name (lookup name m) m))
      ≡ flag (lookup n (insert name false r))
  shown_ended = elim (Bool-cases (name == n)) [
    | inl same ↦
        rw (shown_update idle_again name n m (lookup name m) refl, flag-insert name n false r, same)
          (idle_again-shown (lookup name m))
    | inr other ↦
        rw
          (shown_update idle_again name n m (lookup name m) refl, flag-insert name n false r, other)
          agree
  ]

  pub shown_new :
      (st : JobStatus)
      → st.running ≡ false
      → flag (lookup name r) ≡ false
      → shown (lookup n (insert name st m)) ≡ flag (lookup n r)
  shown_new st off idle = elim (Bool-cases (name == n)) [
    | inl same ↦
        rw (lookup-insert {V = JobStatus}, same)
          (off ∙ sym idle ∙ ap (λ k. flag (lookup k r)) ((==_iff name n).0 same))
    | inr other ↦ rw (lookup-insert {V = JobStatus}, other) agree
  ]
