-- ===== src/Acc.antt =====
-- src/bee/lib/db/acc.c: the account base. State has the functions on single records, Trans the
-- transaction; the modules below prove what they do.
pub mod State
pub mod Trans
pub mod Opening
pub mod Old
pub mod Disk
mod Tests
