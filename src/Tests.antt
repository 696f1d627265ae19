-- ===== src/Tests.antt =====
-- Runs of the model on small inputs, and instances of the theorems at inputs that meet their
-- hypotheses, one module for each part.
mod Tls
mod Capture
mod Bench
mod Ci
mod Desktop
mod Release
mod Trials
mod Calm
mod Group
mod Profile
mod Blocks
mod Comparison
mod Summary
