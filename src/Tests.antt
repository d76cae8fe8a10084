-- ===== src/Tests.antt =====
-- Runs of the definitions, and each theorem with hypotheses at a concrete input.
mod Addresses
mod Bignums
mod Digests
mod Runs
mod Curves
mod Points
mod Macs
mod Texts
mod Orders
mod Amounts
mod Transforms
mod Readers
