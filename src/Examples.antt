-- ===== src/Examples.antt =====
-- Concrete inputs: runs of the model, and the theorems applied to them.
mod Agent
mod Auth
mod Core
mod Migrations
mod Api
mod Rag
mod Shared
mod Wired
