-- ===== src/Tests.antt =====
-- Runs of the model at concrete inputs: each theorem that has conditions is applied where they hold.
mod Data
mod Stored
mod Registered
mod Launched
mod Decoded
mod Scraped
mod Configured
mod Asked
mod Buffered
mod Tabled
mod Ticking
mod Again
mod Agreed
mod Measured
mod Received
mod Viewed
mod Shared
