-- ===== src/Tailq.antt =====
-- include/csg/core/tailq.h: the tail queue, a circular doubly linked list through an end entry
-- that stands in the list's head. The memory is explicit; an iterator is the word `m_current`;
-- the extractor is fixed by the codec. What a loop may need more rounds than its fuel for is
-- `none`. Assertions are not compiled in (`CSG_DEBUG_LEVEL` 0).
pub mod Memory
pub mod Difference
pub mod Iterator
pub mod Element
pub mod Range
pub mod Head
pub mod Scan
pub mod Merge
pub mod Links
pub mod Cycle
pub mod Valid
pub mod Attach
pub mod Walk
pub mod Frame
pub mod Relink
pub mod Unlink
pub mod Client
pub mod Proxy
