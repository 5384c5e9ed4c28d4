-- ===== src/Numnick.antt =====
-- ircd/numnicks.c: the base 64 numbers of servers and users, and the tables that they index.
pub mod Base64
pub mod Registry
pub mod Nicks
pub mod Handshake
