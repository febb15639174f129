-- ===== src/Tests.antt =====
-- Runs of the model on concrete inputs, and the theorems applied to them.
mod Comparing
mod Documents
mod Verifying
mod Retrying
mod Buffers
mod Working
mod Processing
mod Driving
mod Keys
mod Collections
mod Streaming
