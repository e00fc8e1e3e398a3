-- ===== src/Relay/Hooks/Order.antt =====
-- The order in which hooks run, and where a failure stops them.
use congee.Prelude.{Text, [], ◌∷◌, ◌++◌, Option, none, some, ◌≡◌, refl, inl, inr, Option-cases}
use congee.Relay.Hooks.{HookChain, append_hook, prepend_hook, run_hooks}

-- What a run goes on with after a first part of the chain.
abbrev pub and_then {ℓ} :
    {World : Type ℓ} → World × Option Text → (World → World × Option Text) → World × Option Text
and_then (w, some err) k = (w, some err)
and_then (w, none) k = k w

-- A chain runs its parts in order, the second in the world that the first leaves; where the first
-- fails, the second does not run.
pub run_hooks-append {ℓ} :
    {World : Type ℓ} (c d : HookChain World) (w : World)
    → run_hooks (c ++ d) w ≡ and_then (run_hooks c w) (run_hooks d)
unfolding run_hooks
run_hooks-append [] d w = refl
run_hooks-append (nh ∷ c) d w =
    let ih = run_hooks-append c d (nh.fn w).0 in
    elim (Option-cases (nh.fn w).1) [
      | inl q ↦ rw (q, run_hooks) ih
      | inr (err, q) ↦ rw (q, run_hooks) refl
    ]

-- A hook that is prepended runs before a chain, and one that is appended runs after it in the world
-- that the chain leaves, unless the chain fails.
pub run_hooks-append_hook {ℓ} :
    {World : Type ℓ} (name : Text) (h : World → World × Option Text) (c : HookChain World)
    (w : World)
    → (run_hooks (append_hook name h c) w
        ≡ and_then (run_hooks c w) (run_hooks (append_hook name h [])))
      × (run_hooks (prepend_hook name h c) w
          ≡ and_then (run_hooks (append_hook name h []) w) (run_hooks c))
unfolding append_hook prepend_hook
run_hooks-append_hook name h c w = (
  run_hooks-append c (record { name = name; fn = h } ∷ []) w,
  run_hooks-append (record { name = name; fn = h } ∷ []) c w,
)
