-- ===== src/Lib.antt =====
-- ptok: concurrent maps from 64-bit keys to pointers, after prototypes for libpmemobj.
--
-- The program has four indexes with the same interface (new, delete, insert, remove, get and, for
-- two of them, find_le), declared in hmproto.h and called by the tests and benchmarks through the
-- table that hmload.c fills: critnib.c, a radix tree over 4-bit slices with path compression;
-- critnib-tag.c, an older version of it; critbit.c, a binary tree over the lowest differing bit;
-- and tcradix.c, a radix tree over 4-bit slices. Writers hold the mutex of the structure; readers
-- take no lock.
--
-- Files, and the code that they model:
--   Critnib.Tree            critnib.c: the structs, path_mask, slice_index, critnib_new
--   Critnib.Pools           critnib.c: alloc_node, free_node, alloc_leaf, free_leaf, delete_node,
--                           critnib_delete
--   Critnib.Insert          critnib.c: critnib_insert
--   Critnib.Remove          critnib.c: critnib_remove
--   Critnib.Find            critnib.c: critnib_get, find_successor, find_le, critnib_find_le
--   Critnib.Client          the calls of the interface, one after the other
--   Critnib.Shared          critnib.c: critnib_get, load by load, on memory that writers change
--   CritnibTag.Pools, .Insert, .Remove, .Find
--                           critnib-tag.c, operation by operation
--   Critbit, Critbit.Insert, Critbit.Remove
--                           critbit.c
--   Tcradix, Tcradix.Insert, Tcradix.Remove, Tcradix.Get
--                           tcradix.c
--   Hm, Hm.Table            hmproto.h, hmload.c
--   Corr                    1corr.c
--   Tlog                    tlog.c: tlog_init, tlog, tlog_save
--   Util.Checksum           util.c: util_checksum, util_checksum_seq
--   Word                    util.h: util_mssb_index64; the C operators on uint64_t
-- The other modules hold no model of code. Critnib.Valid, Critbit.Valid and Tcradix.Valid say
-- what a well-formed tree is, and they and Tcradix.Holds what it holds; Mapping is the abstract
-- view that the indexes share, a partial function from keys to values; Critnib.Refines,
-- Critbit.Refines and Tcradix.Refines compare operations with it; Critnib.Owned counts the places
-- of the structure that hold an address; the children of Critnib.Shared prove what its readers
-- return, and what writers keep for them; CritnibTag.Same and CritnibTag.Crash compare
-- critnib-tag.c with critnib.c; Hm.Laws is the interface as a record of laws, filled by the four
-- indexes in its children, and the theorems on the tests of Corr have it as a parameter;
-- Util.Checksum.Laws compares the two checksums; Word.Bits, Word.Slices and Word.Lowest are the
-- arithmetic; Base has shared names; Tests runs the models at concrete inputs.
--
-- State and operations. A structure is a record with the fields of the C struct, less the mutex. A
-- tagged pointer is a tree, whose nodes and leaves carry the address of their memory; the pools,
-- which the code links through child[0] and value, are lists of addresses, first to be used first.
-- An operation takes the structure and returns it changed, with what it returns in C; pointers to
-- values are numbers, and NULL is 0. A walk that keeps parent pointers is a recursion that
-- rebuilds the path to the changed child. Numbers of type uint64_t are natural numbers below 2 ^
-- 64 with the wrap-around written out.
--
-- Parameters. Malloc is a pointer to the C library's allocator, and Zalloc clears what it returns:
-- where critnib.c, critnib-tag.c and tcradix.c call them, a list gives the results to come, none
-- for NULL, and at its end they fail; the one Zalloc of critbit_insert is an argument. Free is the
-- list of the addresses that are passed to it. The mutex is assumed to exclude, so that a writer
-- is one step of the structure.
--
-- Bounds and fuel. The readers of critnib.c and critnib-tag.c repeat their round while 16 or more
-- removals happened meanwhile; the models, critnib_get and critnib_find_le, take the number of
-- rounds as fuel and return none when it runs out. On a structure at rest one round is enough
-- where remove_count + 16 does not wrap, and above that the comparison of the code never lets the
-- loop end. tcradix_get has fuel for the rounds of get_slow, which it does not enter on a
-- structure at rest. The walks of tcradix.c recurse on the level, 15 at the root; the mutual
-- recursion of its insert and insert_child is one, in which insert_child has insert of the level
-- below as an argument. All other recursion is on the tree or on the index of an array. Where a
-- walk of tcradix.c would follow a caller's pointer as a node, which no well-formed tree allows,
-- the models return fault or none.
--
-- Not modelled: a reader that runs while a writer changes the tree (the readers here see one
-- structure, but for those of Critnib.Shared, which run beside stores that leave the tree alone);
-- test_le_brute, the printing and the main function of 1corr.c; the threads, clocks and random
-- numbers of th.c and test.c; os_thread_posix.c and out.c, which wrap the C library; the time
-- stamp and the file of tlog.c; the string, file and bitmap helpers of util.c; critbit_find_le and
-- tcradix_find_le, which abort; and code that is not compiled (the display functions, TRACEMEM,
-- DEBUG_SPAM).
pub mod Base
pub mod Corr
pub mod Critbit
pub mod Critnib
pub mod CritnibTag
pub mod Hm
pub mod Mapping
pub mod Tcradix
pub mod Tests
pub mod Tlog
pub mod Util
pub mod Word
