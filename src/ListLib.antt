-- ===== src/ListLib.antt =====
-- The list library of a1-phase2: list.h, list_adders.c, list_movers.c, list_removers.c.
pub mod Pool
pub mod Adders
pub mod Alloc
pub mod Append
pub mod Between
pub mod Chain
pub mod Movers
pub mod Concat
pub mod Create
pub mod Cursor
pub mod Errors
pub mod Grow
pub mod Loop
pub mod Prepend
pub mod Refine
pub mod Removers
pub mod Shape
pub mod Snoc
pub mod Spec
pub mod Steps
pub mod Views
pub mod Sample
mod Tests
