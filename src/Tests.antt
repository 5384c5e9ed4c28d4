-- ===== src/Tests.antt =====
-- Runs of the model on small inputs, and each theorem at one input.
mod Masks
mod Buffers
mod Numerics
mod Rules
mod Addresses
mod Characters
mod Nicks
mod Hashes
mod Watchers
mod Lines
mod Members
mod Ciphers
