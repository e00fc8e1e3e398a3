-- ===== src/Nostr.antt =====
-- The package internal/nostr: events, kinds, filters, groups and messages.
pub mod Event
pub mod Kind
pub mod Filter
pub mod Group
pub mod Wire
