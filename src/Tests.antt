-- ===== src/Tests.antt =====
-- Concrete runs and data of the parts of the program.
mod Proto
mod Caches
mod Keys
mod Clients
mod Fetches
mod Requests
mod Stores
mod Bodies
mod Wires
mod Lives
mod Stacks
mod Parts
