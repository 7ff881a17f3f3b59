-- ===== src/Tests.antt =====
-- Runs of the definitions at concrete inputs, and the theorems at inputs that meet their hypotheses.
mod Data
mod Write
mod Read
mod Multicast
mod Receive
mod Send
mod Database
mod Inserts
mod Caches
mod Port
mod Sockets
mod Result
mod Errors
mod Pipeline
