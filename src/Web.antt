-- ===== src/Web.antt =====
-- src/index.web.tsx: the throwing twin of the facade.
pub mod Ops
pub mod Parity
pub mod Hooks
pub mod Inert
