-- ===== src/Gc.antt =====
-- The collector of gc/ and the counts of references that its functions keep.
pub mod Counts
pub mod Ledger
pub mod Balance
pub mod Collect
pub mod Fields
pub mod Tests
