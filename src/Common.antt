-- ===== src/Common.antt =====
-- src/common: the data structures that the session and the carrier share.
pub mod Bitset
pub mod IdsHeap
pub mod Ring
pub mod RcMem
pub mod LinkedList
pub mod Hashtable
