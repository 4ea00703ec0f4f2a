-- ===== src/Parse.antt =====
-- The parser of src/main.c: what the client does with a message of the server.
pub mod Fields
pub mod Commands
pub mod Download
pub mod Entities
pub mod Message
pub mod Safety
pub mod Skip
pub mod Loops
pub mod Closed
pub mod Updates
