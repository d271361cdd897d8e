-- ===== src/Core/Tests.antt =====
-- Runs of lib/Core on small inputs, and the theorems at concrete inputs.
mod Samples
mod Coalescing
mod Links
mod Outputs
