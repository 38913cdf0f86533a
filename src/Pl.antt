-- ===== src/Pl.antt =====
-- src/bee/lib/bee/lists.c and src/bee/include/lists.h: a growing array of pointers.
-- State has the structure and the allocator, Edit the functions that change a list, Search those
-- that look an item up, Sort the heap sort; the modules below these prove what they do.
pub mod State
pub mod Edit
pub mod Drop
pub mod Search
pub mod Sort
pub mod Exploding
pub mod Tests
