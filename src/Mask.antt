-- ===== src/Mask.antt =====
-- ircd/match.c: masks with `*` and `?`, and what they match.
pub mod Items
pub mod Match
pub mod Collapse
