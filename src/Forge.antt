-- ===== src/Forge.antt =====
-- The adapters of the forges: internal/github, internal/gitlab, internal/forgejo and what they share.
pub mod Http
pub mod Paging
pub mod Stays
pub mod Export
pub mod Exporters
pub mod GitHub
pub mod Forgejo
pub mod GitLab
