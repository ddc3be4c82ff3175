-- ===== src/Ports.antt =====
-- internal/ports: the contracts of the stores, and the checks on their requests.
pub mod Claims
pub mod Outbox
