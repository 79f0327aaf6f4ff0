-- ===== src/Tests.antt =====
-- Runs of the model at concrete inputs, and each theorem with hypotheses applied at one.
mod Descriptors
mod Product
mod Order
mod Shop
mod Comm
mod Database
mod Decimal
mod Catalogue
mod Sharing
mod Overflow
mod Config
mod Sockets
mod Fifos
mod Client
mod Wires
mod MainServer
mod Sessions
mod Store
mod Prompt
mod Logging
mod Visit
mod Starting
mod Accepting
