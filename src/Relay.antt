-- ===== src/Relay.antt =====
-- The package internal/relay: connections, subscriptions, limits and policies.
pub mod Outbox
pub mod Limiter
pub mod Ip
pub mod Idle
pub mod Hooks
pub mod Registry
pub mod Subs
pub mod Fanout
pub mod Query
pub mod Auth
pub mod GiftWrap
pub mod Group
pub mod Reader
pub mod Nip01
pub mod Neg
pub mod Inbound
