-- ===== src/Relay/Registry/Dispatch.antt =====
-- Dispatch after registrations.
use congee.Prelude.{
  Text, ◌==◌, Map, lookup-insert, Result, ◌≡◌, refl, inl, inr, Bool-cases, if◌then◌else◌,
}
use congee.Nostr.Wire.{ClientMessage}
use congee.Relay.Registry.{command, register, dispatch}

-- After a registration, messages of its type go to the new handler, whatever was registered for the
-- type before, and all others to where they went.
pub dispatch-register :
    {World : Type 0} (typ : Text) (h : ClientMessage → Result World)
    (r : Map (ClientMessage → Result World)) (msg : ClientMessage)
    → dispatch (register typ h r) msg ≡ (if typ == command msg then h msg else dispatch r msg)
unfolding dispatch register
dispatch-register typ h r msg = elim (Bool-cases (typ == command msg)) [
  | inl e ↦ rw (dispatch, lookup-insert, e) refl
  | inr e ↦ rw (dispatch, lookup-insert, e) refl
]
