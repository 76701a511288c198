-- ===== src/Tests.antt =====
-- The properties at concrete inputs: what their hypotheses ask for can hold.
mod CaseTests
mod BudgetTests
mod TaskTests
mod PolicyTests
mod WebhookTests
mod ApprovalTests
mod IngestionTests
mod PageTests
mod VerificationTests
mod ExecutionTests
mod CacheTests
