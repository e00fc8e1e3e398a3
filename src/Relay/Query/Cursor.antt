-- ===== src/Relay/Query/Cursor.antt =====
-- The cursor of one filter: its budget, and what its next query leaves out.
use congee.Prelude.{
  ℕ, ◌+◌, ◌-◌, ◌≤◌, ◌<◌, length, ℤ, pos, ◌≤ℤ◌, ◌-ℤ◌, sub64, wrap64_of_IsInt64, IsInt64, List, [],
  ◌∷◌, true, false, some, ◌≡◌, refl, inl, inr, arith, Bool-cases, if◌then◌else◌,
}
use congee.Nostr.Event.{Event}
use congee.Nostr.Filter.{matches}
use congee.Nostr.Filter.Matching.{matches-iff-Satisfies}
use congee.Relay.Query.{FilterCursor, page_limit, page_query, advance, last_created_at}

-- The events that a cursor fetches from a run of answers.
unfoldable pub served : ℤ → List (List Event) → FilterCursor → ℕ
unfolding advance
served page_size [] fc = 0
served page_size (evs ∷ answers) fc =
    let rest = served page_size answers (advance page_size evs fc) in
    if fc.exhausted then 0 else length evs + rest

-- Each answer keeps to the limit of its query.
abbrev pub Honours : ℤ → List (List Event) → FilterCursor → Type 0
Honours page_size [] fc = Unit
Honours page_size (evs ∷ answers) fc =
    (pos (length evs) ≤ℤ page_limit page_size fc)
    × Honours page_size answers (advance page_size evs fc)

-- One page of a cursor with a budget: what it takes it has, and the budget that is left shrinks by
-- as much; a cursor that goes on has some left.
advance-budget :
    (page_size : ℤ) (evs : List Event) (fc : FilterCursor) (budget : ℕ)
    → fc.remaining ≡ pos budget
    → 0 < budget
    → pos (length evs) ≤ℤ page_limit page_size fc
    → (length evs ≤ budget)
      × ((advance page_size evs fc).remaining ≡ pos (budget - length evs))
      × ((advance page_size evs fc).exhausted ≡ false → 0 < budget - length evs)
unfolding advance page_limit ◌-ℤ◌
advance-budget page_size evs fc budget e p h = ground arith

served-exhausted :
    (page_size : ℤ) (answers : List (List Event)) (fc : FilterCursor)
    → fc.exhausted ≡ true
    → served page_size answers fc ≡ 0
unfolding served
served-exhausted page_size [] fc h = refl
served-exhausted page_size (evs ∷ answers) fc h = rw h refl

-- A cursor with a budget, from whatever answers that keep to the limits of their queries, serves no
-- more events than the budget.
pub served-le :
    (page_size : ℤ) (answers : List (List Event)) (fc : FilterCursor) (budget : ℕ)
    → fc.remaining ≡ pos budget
    → 0 < budget
    → Honours page_size answers fc
    → served page_size answers fc ≤ budget
unfolding served
served-le page_size [] fc budget e p h = omega arith
served-le page_size (evs ∷ answers) fc budget e p h = elim (Bool-cases fc.exhausted) [
  | inl over ↦ rw over (omega arith)
  | inr running ↦
      let (fits, left, more) = advance-budget page_size evs fc budget e p h.0 in
      elim (Bool-cases (advance page_size evs fc).exhausted) [
        | inl over ↦
            rw (running, served-exhausted page_size answers (advance page_size evs fc) over)
              (omega (arith, fits))
        | inr runs ↦
            let k =
              served-le page_size answers (advance page_size evs fc) (budget - length evs) left
                (more runs) h.1 in
            rw running (omega (arith, fits, k))
      ]
]

before-next : (t c : ℤ) → IsInt64 (t -ℤ pos 1) → t ≤ℤ c → ¬ (c ≤ℤ sub64 t (pos 1))
unfolding sub64 ◌-ℤ◌
before-next t c h late k = ground (arith, wrap64_of_IsInt64 (t -ℤ pos 1) h)

-- After an answer whose last event was made at `t`, the cursor's next query leaves out every event
-- made at `t` or later, also one made at `t` that the answer's limit cut off. The exception is the
-- least int64, where the subtraction wraps around.
pub page_query-advance :
    (page_size : ℤ) (evs : List Event) (fc : FilterCursor) (t : ℤ) (e : Event)
    → last_created_at evs ≡ some t
    → IsInt64 (t -ℤ pos 1)
    → t ≤ℤ e.created_at
    → matches (page_query page_size (advance page_size evs fc)) e ≡ false
unfolding page_query advance
page_query-advance page_size evs fc t e last h late =
    elim (Bool-cases (matches (page_query page_size (advance page_size evs fc)) e)) [
      | inr miss ↦ miss
      | inl hit ↦
          let s =
            (matches-iff-Satisfies (page_query page_size (advance page_size evs fc)) e).0 hit in
          let k = s.until (sub64 t (pos 1)) (rw last refl) in
          absurd (before-next t e.created_at h late k)
    ]
