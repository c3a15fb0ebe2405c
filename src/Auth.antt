-- ===== src/Auth.antt =====
-- runtime_macro_auth.c: the credential of the management protocol, with challenges, sessions and a
-- cooldown after wrong proofs.
pub mod State
pub mod Ops
pub mod Storage
pub mod Proof
pub mod Lockout
pub mod Sessions
pub mod Challenge
pub mod Update
