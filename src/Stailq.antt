-- ===== src/Stailq.antt =====
-- include/csg/core/stailq.h: the singly linked tail queue, which knows its last entry.
pub mod Element
pub mod Range
pub mod Laws
pub mod Insert
pub mod Values
pub mod Erase
pub mod Sort
pub mod Reverse
pub mod Head
pub mod Proxy
