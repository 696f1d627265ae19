-- ===== src/Release.antt =====
-- .github/scripts/release.py: the release payload and its verification before publishing.
pub mod Payload
pub mod Verify
pub mod Sound
pub mod Accepts
