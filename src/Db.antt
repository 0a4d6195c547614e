-- ===== src/Db.antt =====
-- The key-value stores of common/db as their clients see them. The engine behind a bucket and its
-- iterator (goleveldb in production) is not the repository's code, so it is a parameter: a record
-- of the operations with the laws that its documentation promises. Values are kept decoded.
-- `Db.MapDb` fills the interface, `Db.Batch` adds batches of writes, `Db.Bulk` has the loops over an
-- iterator that clients share, `Db.Layer` is a bucket with a transaction over another, and
-- `Db.Sharded` makes the sub-databases of one directory a single engine.
pub mod Engine
pub mod Batch
pub mod Layer
pub mod Sharded
pub mod Bulk
pub mod MapDb
pub mod Ordered
pub mod Key
pub mod Load
pub mod Codec
