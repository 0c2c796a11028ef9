-- ===== src/Examples.antt =====
-- The theorems at concrete inputs: tables, events, trees and jobs.
mod Logout
mod Tables
mod Expansions
mod Trees
mod Files
mod Jobs
mod Handlers
mod Children
mod Stops
mod Daemons
mod Turns
