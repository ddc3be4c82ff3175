-- ===== src/Tests.antt =====
-- The theorems at concrete inputs, on the fixtures.
mod Fixtures
mod Claims
mod Outbox
mod Domain
mod Policy
mod Review
mod World
mod Repositories
mod Operators
mod Planner
mod Engine
