-- ===== src/Relay/Hooks.antt =====
-- internal/relay/hooks.go: the chain of hooks that run after an event is accepted. A hook acts on a
-- world of any type, for what it does to the store and the connections.
use congee.Prelude.{Text, bytes, List, [], ◌∷◌, ◌++◌, Option, none, some}
pub mod Order

pub record NamedPostHook {ℓ} (World : Type ℓ) : Type ℓ where
  pub name : Text
  pub fn : World → World × Option Text

abbrev pub HookChain {ℓ} : Type ℓ → Type ℓ
HookChain World = List (NamedPostHook World)

abbrev hook_error : Text → Text → Text
hook_error name err = bytes "post_hook " ++ (name ++ (bytes ": " ++ err))

module _ {ℓ} {World : Type ℓ} where
  unfoldable pub append_hook :
      Text → (World → World × Option Text) → HookChain World → HookChain World
  append_hook name h c = c ++ record { name = name; fn = h } ∷ []

  unfoldable pub prepend_hook :
      Text → (World → World × Option Text) → HookChain World → HookChain World
  prepend_hook name h c = record { name = name; fn = h } ∷ c

  -- The error of the first hook that fails, under its name.
  unfoldable pub run_hooks : HookChain World → World → World × Option Text
  run_hooks [] w = (w, none)
  run_hooks (nh ∷ c) w =
      let rest = run_hooks c (nh.fn w).0 in
      elim (nh.fn w).1 [ some err ↦ ((nh.fn w).0, some (hook_error nh.name err)) | none ↦ rest ]
