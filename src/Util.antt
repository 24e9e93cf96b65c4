-- ===== src/Util.antt =====
-- util/Concurrent.h and vm/modules/util/BitSet.h.
pub mod BitSet
pub mod RwLock
mod Tests
