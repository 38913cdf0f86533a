-- ===== src/Lib.antt =====
-- A verification library for the billing system bee (src/bee): its lists and arrays, its files of
-- records with the account base and the log of transactions, its table of gates, its tariffs, what
-- resources cost, the transactions of its daemon, and its texts of queries.
--
-- The parts and how they interact. The daemon and its tools keep lists of pointers (lists.c), timers
-- (timer.c) and arrays (da.c). Accounts are records of one size in a file (lib/db/acc.c), and so are
-- the entries of the log (lib/db/log.c), both through the record files of lib/db/db.c, which read and
-- write at offsets and keep one cache of records for sequential reading. acc_trans, the transaction,
-- locks the account base, loads and checks an account, changes its balance, writes it back, and then,
-- under the log's lock, merges its entry into one of the same step or adds it. Gates (lib/db/links.c)
-- link a user of a resource, or a network, to an account; they are read from a file of lines, whose
-- tokens lib/bee/beelib.c cuts. The sum of a transaction comes from core/res.c, which prices a value by
-- the table of tariffs that lib/db/tariffs.c has loaded, and counts it on the account. core/core.c puts
-- these together: its transactions lock the base, load the account, take the sum from the resource, write
-- the account back, add the entry and unlock, and answer by the limit of the tariff. The texts that
-- the daemon sends to a database are kept by core/queries.c under their names, with places for arguments.
--
-- Files:
--   Prelude    numbers, lists, C's integers (Int), runs that may fault (Run), blocks of memory (Cells)
--   Pl         include/lists.h and lib/bee/lists.c. `Pl` is `struct pl`; `cells` is the block at `ptr`,
--              a pointer is a number with 0 for NULL, and `freed` lists the calls of `dealloc`. Edit has
--              pl_init, pl_add, pl_insert, pl_sinsert and pl_pack; Drop pl_delete, pl_exchange,
--              pl_replace, pl_clear and pl_free; Exploding pl_str_explode; Search pl_lsearch,
--              pl_bsearch, pl_fentry, pl_lentry and pl_isearch, whose fuel the caller gives, as its
--              rounds have no bound; Sort pl_hsort.
--   Timer      include/timer.h and lib/bee/timer.c, with the answer of gettimeofday as an argument;
--              seconds are integers without bound
--   Da         lib/bee/da.c: an item is a cell, and its bits are those of the cell's number. Order has
--              memswap, da_swap, da_reverse and da_bsort
--   Misc       lib/bee/misc.c: strupper and strlower, in Dates check_ymd and check_hms, and in Strings the
--              rest, over isspace and strtol
--   Recode     lib/bee/recode.c
--   Base       include/db.h: the records (Record), and as parameters C's `double`, the calls of
--              lib/db/db.c, the locks and the clock (Env), with what is relied on of them (Laws)
--   Db         lib/db/db.c, over the system calls (Calls): a file is the bytes behind its descriptor and
--              the place of the next access, two descriptors are two files, and no other program
--              writes meanwhile. `Seqread` is the variable `sqr`, `get_record` is db_get on any file,
--              `random_get` db_get on a file that is not the cached one. Codec stands for a record
--              as bytes. Refine makes of these the store that Base takes as a parameter.
--   Beelib     lib/bee/beelib.c; a text is the list of its bytes, strsep is written out
--   Links      include/links.h, lib/db/links.c and the table of lib/db/res.c: addresses and masks in the
--              parent, where `Libc` stands for inet_pton and the like; Gates has the lookups,
--              reslink_new and reslink_del; Loading reads the lines of the file of gates, and Files has
--              reslinks_load and reslinks_save over the calls of the system (`GateSystem`), with an
--              unlock at each exit. The table is a list, and whether memory is found is an argument.
--   Res        core/res.c and include/tariffs.h. The table of tariffs is a list with the entry that
--              ends it; `Calendar` stands for localtime_r and timelocal, `Reals` for the arithmetic on
--              `double`, and the time of the call is an argument. Res has the loop over plans
--              (`settle`), Counting inet_count_proc, the other procedures and inet_charge_proc
--   Tariffs    lib/db/tariffs.c: what g3c.c has parsed is a list of plans with their sections, a table is
--              a count and a block; Pricing says what an entry takes from its section
--   Queries    core/queries.c: a buffer is the list of its bytes; `expand` in Expanding says what a text
--              stands for
--   Log        lib/db/log.c
--   Acc        lib/db/acc.c: State has acci_get, acci_put, acc_get, acc_put, acc_add and the locks,
--              Opening acc_baseopen and acc_baseclose, Old acci_get_old, Trans has acc_trans, and Disk
--              puts them over the files of Db
--   Core       core/core.c: the parent has acc_limit, accs_state and what a sum does to an account and to
--              its entry; Trans has acc_transaction and acc_charge_trans, Bitrans acc_bitrans. They run on
--              the tables of Tariffs and the procedures of Res; `Globals` holds `HackTime` and the tables.
-- The modules below these hold the proofs, and Tests runs and examples.
--
-- Integers are checked where C leaves an overflow undefined (`add_int`, `twice` in the tree of pl_hsort,
-- `mul_int` for the offsets of da_bsort), and wrap where it is `u_int`.
-- `realloc` is a function that may refuse; the comparisons of the lists are functions. Loops recurse on
-- the number of rounds that are left. The loops of pl_bsearch and pl_sinsert have fuel, one more than
-- the number of items, which the theorems on them show to be enough: they state a value. The loop of
-- next_token has two rounds more than the text has bytes, as a round takes a byte or is one of the last
-- two. The passes of da_bsort are bounded by the square of the count, as one that exchanges leaves fewer
-- pairs out of order. The tries of acc_trans are three, as in the code, and the rounds of the loop over
-- plans 257, its own loop detection. pl_str_explode has two rounds more than the text has bytes, and
-- query_vcatstr one, as each takes a byte or is the last.
--
-- Not modelled: the parser of configuration files, whose answer the tariffs take, and conf.c over it;
-- messages to syslog; the reserved fields but the tariff of an old account; count_crc, which is zlib's;
-- the commands and the set-up of the daemon, the tools, and the other programs of the repository. The
-- number of log entries is not cut to an `int`, as acc_trans does, neither is the index of a lookup in the
-- table of gates, the offset that da_ptr makes of an index and a size has no bound, and neither have the
-- counters of traffic. In Tariffs and Queries memory is found for every entry and copy.
pub mod Prelude
pub mod Pl
pub mod Base
pub mod Db
pub mod Links
pub mod Res
pub mod Tariffs
pub mod Queries
pub mod Beelib
pub mod Timer
pub mod Da
pub mod Misc
pub mod Recode
pub mod Log
pub mod Acc
pub mod Core
