-- ===== src/Lib.antt =====
-- ARTS, an asynchronous many-task runtime in C (libs/src): tasks (EDTs) are run by the workers of the
-- nodes (ranks) when the events they wait for have fired and the data blocks (DBs) they use have been
-- granted. Every object has a GUID; a node finds its objects by their GUIDs in route tables, and an
-- epoch detects that all tasks of a group have finished.
--
-- The parts, and the files that model them:
--   Gas/Guid           libs/src/core/gas/guid.c and the macros of gas/guid.h: GUIDs as 64-bit numbers,
--                      the key generator as a record of the file's globals, and the
--                      start of the workers (Start)
--   Gas/RouteTable     libs/src/core/gas/route_table.c: the lock word of an entry (this file), the
--                      calls on a table (Table), the choice of the table from the generator's globals
--                      (Select), which the GUIDs of Gas/Guid are the input of
--   Gas/OoList         libs/src/core/gas/out_of_order_list.c: the operations held back at an entry
--   Memory/Frontier    libs/src/core/memory/frontier.c: the order in which the owner of a DB grants the
--                      requests of tasks and ranks, and in Signal how it serves them
--   Memory/Acquire     libs/src/core/memory/db.c, acquire_dbs: how an EDT that has its slots asks for
--                      its DBs, and what it still waits for
--   Memory/Release     libs/src/core/memory/db.c, release_dbs: what it gives back at its end
--   Compute/Pool       libs/src/core/compute/edt.c: the pool of the memory of EDTs
--   Compute/Buffer     the same file: buffers with a number of uses
--   Compute/Edt        the same file and libs/src/core/gas/out_of_order.c: EDTs and their slots; the
--                      messages for an EDT that may not exist yet (Arrive), the creation (Create) with
--                      the pool and with the epochs that the worker is in (Local)
--   Sync/Epoch         libs/src/core/sync/termination.c: epochs on one node and on many; Reduce splits
--                      the handling of a response at its atomic accesses
--   Sync/Event         libs/src/core/sync/event.c: LATCH, ONCE, COUNTED, STICKY and IDEM events, and
--                      CHANNEL events in Channel
--   Utils/Deque        libs/src/core/utils/deque_simple.c: the Chase-Lev deque of a worker
--   Utils/ArrayList    libs/src/core/utils/array_list.c: a growing array in a chain of nodes
--   Utils/RwLock       libs/src/core/utils/atomics.c: the reader and writer lock, a step relation on the
--                      atomic accesses of any number of threads
--   Graph/Distribution libs/src/graph/distribution/block_distribution.c: vertices in blocks
--   Prelude            Boolean tests on numbers, C arrays as lists, machine words
--
-- A function of the C code is a function of the same name, without its `arts_` prefix or the name of
-- its file, from the state and the arguments to the new state, the result, and the calls that leave
-- the file as a list of `Effect`s. `none` stands for a call that aborts the process, or for a NULL
-- result. Pointers to objects of other files are numbers, 0 is NULL. Words are natural numbers with
-- their wrap-around written out (u32, u64). Loops are structural: on the number of rounds left, on a
-- list, or on the chain of tables, so no fuel is needed. Calls run one at a time unless a file says
-- that it splits them; what the locks and compare-and-swaps of the code guarantee is taken for that
-- from the code. Split are Utils/RwLock, Compute/Edt/Arrive, whose steps are the table's and the list's
-- calls as the threads interleave them (a firing may give up), and parts of Sync/Epoch/Reduce and Utils/Deque. What the code
-- asks of another file (the lookup of an EDT by its GUID, the GUID that an EDT carries, what a DB's
-- frontier answers) is an argument.
--
-- Not modelled: allocation and release of memory, logging and counters, the bytes of DBs, sockets and
-- packets, threads and the scheduler's loop, the GPU code, the handler of held-back operations other
-- than the messages for EDTs, the creation of DBs and the calls that get and put their parts,
-- the pools that epochs are allocated in, the graph's edge vectors and CSR form.
pub mod Prelude
pub mod Gas
pub mod Memory
pub mod Sync
pub mod Utils
pub mod Graph
pub mod Compute
