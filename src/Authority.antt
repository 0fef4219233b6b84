-- ===== src/Authority.antt =====
-- core/src/endbotd/authority.py: enrolment, controller policy and the two-layer check.
pub mod State
pub mod Report
pub mod Changes
pub mod Action
pub mod Allowlist
pub mod Words
pub mod Console
pub mod Revoked
pub mod Removal
pub mod Decision
mod Tests
