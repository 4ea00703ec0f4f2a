-- ===== src/Tests.antt =====
-- Runs of the definitions, and the theorems at concrete inputs.
mod Parsing
mod Links
mod Addresses
mod Lives
mod Clients
mod Packing
mod System
