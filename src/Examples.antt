-- ===== src/Examples.antt =====
-- Concrete data on which the theorems are applied: a class with one assignment, two essays and one
-- grade with two criterion scores, and a batch of two essays.
pub mod Data
pub mod Batches
pub mod Records
pub mod Requests
mod Resubmissions
pub mod Answers
pub mod Gradings
pub mod Cache
pub mod Accounts
pub mod Sessions
pub mod Rubrics
pub mod Names
pub mod Imports
