-- ===== src/Tests.antt =====
-- The theorems at concrete deliveries, addresses, batches and slots.
mod Deliveries
mod Addresses
mod Commands
mod Batches
mod Admissions
mod Waiters
mod Sessions
mod Images
mod Requests
mod Messages
mod Logins
