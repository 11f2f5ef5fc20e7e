-- ===== src/Gc.antt =====
-- The garbage collector of src/gc.cpp and src/gc.h. `Heap` has the objects, `Collector` the record of
-- the collector with `track` and `untrack`, `Mark` and `Sweep` the two phases, `Collect` puts them
-- together, `Settings` has the setters. The proofs: `Refers` has the
-- values that an object holds, field by field. `Cells` is on the heap; `Marking`, `Children`, `Visits`, `Fields`,
-- `Scan` and `Exact` on the mark phase; `Shuffle`, `Retreat`, `Partition`, `Loops` and `Swept` on `sweep`; `Registry` and
-- `Collected` on the registry through a collection; `Tracked`, `Untracked` and `Books` on single objects;
-- `Stale` on marks from earlier collections.
pub mod Heap
pub mod Collector
pub mod Mark
pub mod Sweep
pub mod Collect
pub mod Settings
pub mod Cells
pub mod Marking
pub mod Children
pub mod Refers
pub mod Fields
pub mod Visits
pub mod Scan
pub mod Exact
pub mod Shuffle
pub mod Retreat
pub mod Partition
pub mod Loops
pub mod Swept
pub mod Registry
pub mod Collected
pub mod Tracked
pub mod Untracked
pub mod Books
pub mod Stale
