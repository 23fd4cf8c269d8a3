-- ===== src/Witnesses.antt =====
-- The theorems at concrete inputs, and tests of the definitions by evaluation. Errors and message
-- properties are numbers here.
mod Queues
mod Messages
mod Numbers
mod Buffers
mod Indices
mod Connections
mod Loops
mod Pieces
mod Records
