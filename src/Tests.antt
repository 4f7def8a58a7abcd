-- ===== src/Tests.antt =====
-- The theorems at concrete rows, and runs of the handlers.
mod Data
mod Valid
mod Desk
mod Office
mod Field
mod People
mod Streams
mod Accounts
