-- ===== src/Tests.antt =====
-- Concrete runs of the programs that the other modules model.
mod Polling
mod Facts
mod Scores
mod Services
mod Pages
mod Feeds
mod Caching
mod Runs
mod Sites
