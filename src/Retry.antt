-- ===== src/Retry.antt =====
-- internal/retry/retry.go: the errors that a retried function leaves, the waits between its attempts, and
-- the loop itself.
pub mod Errors
pub mod BackOff
pub mod Loop
mod Examples
