-- ===== src/Tests.antt =====
-- Concrete runs of the agent's code, at which the theorems' conditions hold.
mod Tries
mod Accounts
mod Stores
mod Syncs
mod States
mod Validation
mod Agents
mod Commands
