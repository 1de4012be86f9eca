-- ===== src/Lib.antt =====
-- jio reads systemd journal files asynchronously: subcommands report on the journals of the
-- machine, reclaim the space behind their last objects and verify the hashes of their objects.
-- This library models the code under src/ of the repository, file by file, and proves what its
-- parts promise one another.
--
-- A callback chain. The program queues an operation on iou (io_uring) with a closure of thunk; both
-- are other projects. Io has such a chain as a tree: `call` asks the world, the rest of the chain
-- goes on from the reply, which may be anything; `fail e` is a callback that returns -e, `fault`
-- is a failed assertion or undefined behaviour, and `out_of_fuel` marks an exhausted bound.
-- Io/Wp says what holds under all replies that a world may give: a chain that faults or runs out
-- of fuel satisfies nothing. Cache/World has what is assumed of reads of one file: the bytes are
-- the file's, and a read is short only at its end or where the world has EINVAL among its errors.
--
-- The parts:
--   Lru, Cache: `buf_used`, `journal_read` and `buf_got_read` of src/journals.c. A pointer to one
--     of the eight buffers of a journal is its index; `journal_read` returns the bytes that it
--     would leave in `dest`. Lru/Order says that the pointers describe a list, Cache/Window that each
--     valid buffer is a window of the file. Lru/Recency and Cache/Keeps count the buffers that were
--     used behind one, for how long a range stays.
--   Format: the structures of src/upstream/journal-def.h and their byte order (`le64toh` of
--     src/upstream/sparse-endian.h), `got_header`, `got_object_header`, `got_object`. Bytes of a
--     file are lists of numbers below 256; a structure is what a host of either order reads.
--   Objects: `journal_get_header`, `journal_get_object_header`, `journal_get_object`,
--     `journal_get_object_full`, `journal_iter_next_object`, `journal_iter_objects` of
--     src/journals.c. `*iter_offset`, `*iter_object_header` and the journal are one value.
--   HashTable: `journal_get_hash_table`, `journal_hash_table_iter_next_object`,
--     `journal_hash_table_for_each` of src/journals.c.
--   Open: `journals_open`, `var_opened`, `get_journals`, `opened_journal`, `journals_for_each` of
--     src/journals.c. The opens complete in an order that is an argument of `completions`.
--   Ids: src/readfile.c, src/machid.c and src/bootid.c.
--   Humane: src/humane.c, with the double as a fraction.
--   Usage, TailWaste, Layout, EntryArrays: src/report-usage.c, src/report-tail-waste.c,
--     src/report-layout.c, src/report-entry-arrays.c.
--   Reclaim: src/reclaim-tail-waste.c; its command returns an error at once, what stands behind
--     that is modelled all the same. Verify: src/verify-hashed-objects.c.
--   Io/Obeys says what a chain asks for, whatever it is replied. With it Cache/Own, Objects/Own,
--     EntryArrays/Own and Verify/Own are about the files and buffers that one journal touches.
--   Tasks: the chains of all journals beside one another, as one `iou_run` drives them. A chain
--     changes the totals of a report by an `update`; Moves is one turn of one task, and Inevitably
--     says what comes to pass whatever turns are taken. Usage/Concurrent and TailWaste/Concurrent
--     have `per_journal` and `per_journal_tail_waste` as tasks; those of the entry-arrays and of the
--     verification change the totals at most once, at their end. Tasks/Promised has the changes
--     that a task may make whatever it is replied, Tasks/Reached what a run of `iou_run` is.
--   Drive: what every command does, from `machid_get` over `journals_open` to `journals_for_each`;
--     Drive/Commands has `jio_report_usage`, `jio_report_tail_waste`, `jio_report_layout`,
--     `jio_report_entry_arrays`, `jio_verify_hashed_objects` and `jio_reclaim_tail_waste`. What is
--     proved of such a command as a whole takes two hypotheses, which Drive/Outcome and
--     Tasks/Reached state. `Starts`: /etc/machine-id is not empty and is read whole, `fdopendir`
--     and the registering do not fail, the second pass over the directory shows no more journals
--     than the first, and their opens complete in any order, each succeeding or denied. `Drives`:
--     `iou_run` returns behind turns of the tasks, the totals when all have ended, or the error of
--     one that has failed.
--   Names: `journal_object_type_str` and `journal_state_str`. Cli: `main` of src/jio.c.
--   Base: helpers on lists, numbers and tests; Samples: a small journal file and tests.
--
-- Numbers. A `uint64_t` is a number with its wrap-around at 2 ^ 64 written out, an `unsigned` one
-- with that at 2 ^ 32; arrays that the code indexes by a type or a state are functions, and the
-- index is tested where the code writes.
--
-- Fuel. An iteration over objects takes a number of steps: one more than the file has objects is
-- enough, by the theorems on it. The loop over the hash buckets takes as many rounds as there are
-- buckets, the one of `humane_bytes` eight, for orders 0 to 6, and the one of `dehyphen` as many as the
-- buffer is long.
--
-- Not modelled: how numbers and texts are printed; the lines that are printed while a command
-- runs; the release of memory. `iou_run`, SHA-1, siphash24 and jenkins_hash64 (of src/upstream),
-- zstd, `iou_async` and the conversion of an integer to a double are parameters.
--
-- Worker threads. `iou_async` is given the work and the closure for what goes on behind it.
-- Verify/Workers has what is assumed of it: when the work has completed, the closure is dispatched,
-- as a comment in src/verify-hashed-objects.c has it. Whether a failure of the work ends the chain
-- is left open; objects of at most 16 KiB are verified without a worker.
pub mod Base
pub mod Io
pub mod Lru
pub mod Cache
pub mod Format
pub mod Objects
pub mod Open
pub mod Usage
pub mod TailWaste
pub mod Reclaim
pub mod HashTable
pub mod Ids
pub mod Humane
pub mod Layout
pub mod Verify
pub mod EntryArrays
pub mod Samples
pub mod Cli
pub mod Tasks
pub mod Names
pub mod Drive
