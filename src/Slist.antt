-- ===== src/Slist.antt =====
-- include/csg/core/slist.h: the singly linked list.
pub mod Element
pub mod Range
pub mod Laws
pub mod Sort
pub mod Transfer
pub mod Changes
pub mod Values
pub mod Reverse
pub mod Lost
pub mod Head
pub mod Proxy
