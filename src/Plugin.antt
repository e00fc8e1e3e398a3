-- ===== src/Plugin.antt =====
-- internal/plugin: which messages a plugin is shown.
pub mod Match
pub mod Intercept
pub mod Convert
