-- ===== src/Base.antt =====
-- What src/bee/lib/db/acc.c and log.c stand on: the record files of db.c, the locks, the clock and
-- the checksums (Env), and the structures of src/bee/include/db.h (Record).
pub mod Env
pub mod Record
pub mod Laws
