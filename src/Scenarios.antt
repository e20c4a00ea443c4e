-- ===== src/Scenarios.antt =====
-- Concrete flights: the theorems at work on small inputs.
mod Flight
mod Engine
mod Claims
mod Commands
mod Leases
mod Messages
mod Startup
mod Publishing
mod Pages
mod Readings
mod Passing
mod Polls
