-- ===== src/Tests.antt =====
-- Test data, runs of the model on it, and instances of the theorems.
mod Samples
mod Queue
mod Handoffs
mod Reserving
mod Bridging
mod Deferral
mod Threading
mod Reporting
mod Granting
mod Serving
mod Migrating
mod Backing
