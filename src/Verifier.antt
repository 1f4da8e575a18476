-- ===== src/Verifier.antt =====
-- internal/agents/verifier and internal/resolver/verdict.go: the verdict and the fix loop.
pub mod Verdict
pub mod Loop
pub mod Resume
