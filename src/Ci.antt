-- ===== src/Ci.antt =====
-- .github/scripts/ci.py: which checks a change needs, and the gate that all of them must pass.
pub mod Routing
pub mod Gate
