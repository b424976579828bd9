-- ===== src/Buffer.antt =====
-- util/bufferPool and util/hashtable: the pool of page buffers and the table that finds a page in it.
pub mod Pool
pub mod Hash
pub mod Cache
pub mod Tests
