-- ===== src/Tests.antt =====
-- Runs of the modelled code at concrete inputs: the theorems of the library applied to them.
mod Arithmetic
mod Documents
mod Shop
mod Sessions
mod Retries
mod SignedIn
mod Replayed
