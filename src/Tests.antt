-- ===== src/Tests.antt =====
-- Runs at concrete inputs, and each theorem at an input that meets its hypotheses.
pub mod Sample
mod LedgerRuns
mod ConcurrentRuns
mod OutboxRuns
mod ApiRuns
mod ReadRuns
mod AccessRuns
mod DocumentRuns
mod ServerRuns
mod PageRuns
