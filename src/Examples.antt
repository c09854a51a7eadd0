-- ===== src/Examples.antt =====
-- Concrete states and runs of the program, and the theorems at them.
mod Sample
mod Locals
mod Guards
mod Interleaving
mod Rewritten
mod RewrittenGuards
mod SharedStack
mod SharedHazards
mod SharedBags
mod Sets
mod Lists
mod Queues
