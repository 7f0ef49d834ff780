-- ===== src/Tests.antt =====
-- Runs of the theorems at concrete states.
mod Maps
mod Games
mod Servers
mod Clients
mod Flights
mod Closings
mod Applications
mod Editors
