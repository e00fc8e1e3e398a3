-- ===== src/Nip77.antt =====
-- internal/nip77: reconciliation with other relays.
pub mod Upstream
