-- ===== src/Storage/Writer/Served.antt =====
-- Every task that enters the channel is answered, in order, while the writer runs.
use mathlib.Core.List.{append-nil, append_assoc, map-append}
use congee.Prelude.{
  ℕ, ◌≤◌, length, length-append, map, All, List, [], ◌∷◌, ◌++◌, Bool, true, ◌≡◌, refl, ap, ◌∙◌, sym,
  subst, ◌⊎◌, inl, inr, arith,
}
use congee.Storage.Writer.Queue.{
  Phase, running, draining, stopped, Answer, executed, store_closed, WriterQueue, new_queue,
  take_task, QueueStep, enters, submits, gives_up, shuts, cancels, executes, turns, drains, stops,
  QueueReach, here, next, QueueReach-trans,
}

abbrev pub callers : List (ℕ × Answer) → List ℕ
callers = map (λ (a : ℕ × Answer). a.0)

-- A caller is told that the store is closed only once it is.
abbrev pub Fits : Bool → Answer → Type 0
Fits canceled (executed e) = Unit {0}
Fits canceled store_closed = canceled ≡ true

pub record QueueInv (x : WriterQueue) : Type 0 where
  pub served : callers x.answered ++ x.tasks ≡ x.submitted
  pub bounded : length x.tasks ≤ x.capacity
  pub ends : (x.phase ≡ running) ⊎ (x.canceled ≡ true)
  pub told : All (λ a. Fits x.canceled a.1) x.answered

take_order :
    (id : ℕ) (rest sent : List ℕ) (done : List (ℕ × Answer)) (a : Answer)
    → callers done ++ (id ∷ rest) ≡ sent
    → callers (done ++ (id, a) ∷ []) ++ rest ≡ sent
take_order id rest sent done a h = simp (map-append, append_assoc) h

All-snoc {ℓ κ} :
    {A : Type ℓ} (P : A → Type κ) (l : List A) (a : A) → All P l → P a → All P (l ++ a ∷ [])
All-snoc P [] a h p = (p, tt)
All-snoc P (x ∷ l) a h p = (h.0, All-snoc P l a h.1 p)

All-canceled : (l : List (ℕ × Answer)) → All (λ a. Fits true a.1) l
All-canceled [] = tt
All-canceled ((id, executed e) ∷ l) = (tt, All-canceled l)
All-canceled ((id, store_closed) ∷ l) = (refl, All-canceled l)

-- A writer that drains was told to.
down_of :
    {p : Phase} {canceled : Bool}
    → (p ≡ running) ⊎ (canceled ≡ true)
    → p ≡ draining
    → canceled ≡ true
down_of (inl runs) empties = cc
down_of (inr down) empties = down

QueueStep-Inv : {x y : WriterQueue} → QueueStep x y → QueueInv x → QueueInv y
QueueStep-Inv {x} (enters up) h = record {
  served = h.served;
  bounded = h.bounded;
  ends = h.ends;
  told = h.told;
}
QueueStep-Inv {x} (submits id before after waits room) h = record {
  served =
      sym (append_assoc (callers x.answered) x.tasks (id ∷ [])) ∙ ap (λ l. l ++ id ∷ []) h.served;
  bounded = omega (arith, room, length-append x.tasks (id ∷ []));
  ends = h.ends;
  told = h.told;
}
QueueStep-Inv {x} (gives_up id before after waits) h = record {
  served = h.served;
  bounded = h.bounded;
  ends = h.ends;
  told = h.told;
}
QueueStep-Inv {x} shuts h = record {
  served = h.served;
  bounded = h.bounded;
  ends = h.ends;
  told = h.told;
}
QueueStep-Inv {x} (cancels down) h = record {
  served = h.served;
  bounded = h.bounded;
  ends = inr refl;
  told = All-canceled x.answered;
}
QueueStep-Inv {x} (executes id rest e runs q) h = record {
  served =
      take_order id rest _ x.answered (executed e)
        (ap (λ l. callers x.answered ++ l) (sym q) ∙ h.served);
  bounded = omega (arith, h.bounded, ap length q);
  ends = h.ends;
  told = All-snoc _ x.answered (id, executed e) h.told tt;
}
QueueStep-Inv {x} (turns runs down) h = record {
  served = h.served;
  bounded = h.bounded;
  ends = inr down;
  told = h.told;
}
QueueStep-Inv {x} (drains id rest empties q) h = record {
  served =
      take_order id rest _ x.answered store_closed
        (ap (λ l. callers x.answered ++ l) (sym q) ∙ h.served);
  bounded = omega (arith, h.bounded, ap length q);
  ends = h.ends;
  told = All-snoc _ x.answered (id, store_closed) h.told (down_of h.ends empties);
}
QueueStep-Inv {x} (stops empties q) h = record {
  served = h.served;
  bounded = h.bounded;
  ends = inr (down_of h.ends empties);
  told = h.told;
}

QueueReach-Inv : {x y : WriterQueue} → QueueReach x y → QueueInv x → QueueInv y
QueueReach-Inv here h = h
QueueReach-Inv (next r st) h = QueueStep-Inv st (QueueReach-Inv r h)

new_queue-Inv : (capacity : ℕ) → QueueInv (new_queue capacity)
unfolding new_queue
new_queue-Inv capacity = record { served = refl; bounded = omega arith; ends = inl refl; told = tt }

-- In every state that callers, the writer and `Close` reach, in any order: those who were answered,
-- and then those whose tasks are in the channel, are those whose tasks entered it, in the order in
-- which they did; the channel holds no more than its capacity; and no caller was told that the store
-- is closed before it was.
pub QueueReach-served :
    (capacity : ℕ) (x : WriterQueue)
    → QueueReach (new_queue capacity) x
    → (callers x.answered ++ x.tasks ≡ x.submitted)
      × (length x.tasks ≤ x.capacity)
      × All (λ a. Fits x.canceled a.1) x.answered
QueueReach-served capacity x r =
    let h = QueueReach-Inv r (new_queue-Inv capacity) in (h.served, h.bounded, h.told)

-- The state of a writer that has drained its channel and stopped.
abbrev emptied : List ℕ → WriterQueue → WriterQueue
emptied tasks x = record x {
  tasks = [];
  answered = x.answered ++ map (λ id. (id, store_closed)) tasks;
}

drains_all :
    (tasks : List ℕ) (x : WriterQueue)
    → x.phase ≡ draining
    → x.tasks ≡ tasks
    → QueueReach x (emptied tasks x)
drains_all [] x p q =
    subst (λ y. QueueReach x y)
      (λ i. record x { tasks = q i; answered = sym (append-nil x.answered) i }) here
drains_all (id ∷ rest) x p q =
    let y = take_task id rest store_closed x in
    subst (λ z. QueueReach x z)
      (ap (λ l. record x { tasks = []; answered = l })
        (append_assoc x.answered ((id, store_closed) ∷ []) (map (λ id. (id, store_closed)) rest)))
      (QueueReach-trans (next here (drains id rest p q)) (drains_all rest y p refl))

callers-closed : (tasks : List ℕ) → callers (map (λ id. (id, store_closed)) tasks) ≡ tasks
callers-closed [] = refl
callers-closed (id ∷ rest) = ap (λ l. id ∷ l) (callers-closed rest)

empties :
    (x : WriterQueue)
    → x.phase ≡ draining
    → QueueInv x
    → (y : WriterQueue) × QueueReach x y × (y.phase ≡ stopped) × (callers y.answered ≡ x.submitted)
empties x p h =
    let z = emptied x.tasks x in
    (
      record z { phase = stopped },
      next (drains_all x.tasks x p refl) (stops p refl),
      refl,
      map-append _ x.answered (map (λ id. (id, store_closed)) x.tasks)
          ∙ ap (λ l. callers x.answered ++ l) (callers-closed x.tasks)
          ∙ h.served,
    )

-- In every state that is reached, once `Close` has canceled and until the writer has stopped, there
-- are steps after which the writer has stopped and every caller whose task was in the channel has
-- been answered, in the order of the channel.
pub QueueReach-drained :
    (capacity : ℕ) (x : WriterQueue)
    → QueueReach (new_queue capacity) x
    → x.canceled ≡ true
    → (x.phase ≡ running) ⊎ (x.phase ≡ draining)
    → (y : WriterQueue) × QueueReach x y × (y.phase ≡ stopped) × (callers y.answered ≡ x.submitted)
QueueReach-drained capacity x r down (inr p) =
    empties x p (QueueReach-Inv r (new_queue-Inv capacity))
QueueReach-drained capacity x r down (inl p) =
    let turn = turns p down in
    let z = record x { phase = draining } in
    let (y, s, stop, all) =
      empties z refl (QueueReach-Inv (next r turn) (new_queue-Inv capacity)) in
    (y, QueueReach-trans (next here turn) s, stop, all)
