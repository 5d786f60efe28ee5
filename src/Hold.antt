-- ===== src/Hold.antt =====
-- The concurrency pattern that internal/intercept/intercept.go, internal/relay/hold.go and
-- internal/sysCapture/hold.go have in common: a table of held items under a mutex, a channel of
-- size 1 for each item, and a goroutine that waits in a select.
pub mod Table
pub mod Machine
pub mod Client
pub mod Listing
