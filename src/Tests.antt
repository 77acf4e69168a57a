-- ===== src/Tests.antt =====
-- The properties at concrete inputs.
mod Fixtures
mod Urls
mod Runs
mod Deliveries
mod Histories
mod Adapters
mod Tokens
mod Access
mod Services
