-- ===== src/Tests.antt =====
-- Concrete inputs for the theorems.
mod Fixtures
mod Pages
mod Journals
mod Turns
mod Readers
mod Clients
mod Searches
mod Journeys
mod Rounds
mod Times
mod Visits
mod Writers
mod Threads
mod Queues
