-- ===== src/Lib.antt =====
-- geminidb, a server for keys, values and queues over leveldb with the protocol of SSDB.
--
-- A connection's bytes become a request (src/net/link.cpp), the request is looked up in the table of
-- commands and runs in a pool of threads or at once (src/net/server.cpp, src/net/proc.cpp), its handler
-- (src/serv.cpp, src/proc_kv.cpp, src/proc_queue.cpp) calls a method of the database object
-- (src/data/), and the response goes back over the connection (src/net/resp.cpp, src/net/link.cpp).
--
--   Prelude       the names and lemmas that the modules share: lists, byte strings (a byte is a number),
--                 `int` and `int64_t`, little-endian words, bits
--   Util.Endian   the byte swaps of src/util/strings.h
--   Util.Number   numbers as text, of src/util/strings.h and the C library behind them
--   Util.Text     the trims and the lower case of src/util/strings.h
--   Util.Slice    the slices, the upper case, the bit count and the directory of src/util/strings.h
--   Util.Escape   the escapes of src/util/strings.h
--   Util.Bytes    the comparisons of `Bytes` of src/util/bytes.h
--   Util.Decoder  `Decoder` of src/util/bytes.h
--   Util.Buffer   `Buffer` of src/util/bytes.h and src/util/bytes.cpp
--   Util.Pool     the worker pool and its queues of src/util/thread.h, as turns of threads
--   Util.Config   the tree of settings of src/util/config.h and src/util/config.cpp, and its files
--   Util.Log      `Logger` of src/util/log.h and src/util/log.cpp
--   Data.LevelDb  what the code uses of leveldb: a record of operations and laws
--   Data.Keys     the keys of src/data/t_kv.h and src/data/t_queue.h
--   Data.Binlog   the write batch and the transactions of src/data/binlog.h and src/data/binlog.cpp
--   Data.Kv       src/data/t_kv.cpp
--   Data.Queue    src/data/t_queue.cpp
--   Data.Impl     `size` and `info` of src/data/geminidb_impl.cpp
--   Data.Options  src/data/options.h and src/data/options.cpp
--   Net.Link      `recv`, `send`, `read` and `write` of src/net/link.cpp, and the calls of a client
--   Net.Response  src/net/resp.cpp
--   Net.Proc      `ProcMap` of src/net/proc.h and src/net/proc.cpp
--   Net.Fdevents  `Fdevents` of src/net/fde.h, src/net/fde.cpp and src/net/fde_epoll.cpp
--   Net.Select    `Fdevents` of src/net/fde_select.cpp, over the same table
--   Serv.Kv, Serv.Queue, Serv.Commands
--                 the handlers, the table of commands and the dispatch of a request
--   Serv.Loop     the event loop of src/net/server.cpp and `ProcWorker` of src/net/worker.cpp
--   Tests         concrete states
--
-- The database is a parameter, `LevelDb`: a read answers with what the contents hold or fails, and a
-- batch is written as a whole or not at all. A method of the database object passes the state on, from
-- `Geminidb` to `Geminidb`; its early returns are those of `Data.Binlog.Body`. `Data.Queue.View.IsQueue`
-- says which queue the contents hold, as a list of items. An `int` is a ℤ, an `int64_t` and a `uint64_t`
-- are their bit patterns below 2 ^ 64. What `realloc` answers and the text of a command's times are
-- parameters, and so is the interest list of epoll, the record `Epoll`. The threads of a pool take turns in
-- any order: `Util.Pool.Reach` holds of the pools that can come of it, and `Serv.Loop.Rounds.Reach`
-- of the rounds of the event loop, where the threads run their jobs at any time; a turn that faults is
-- none of its steps. `Util.Pool.Signals` adds the condition variable of the queue of jobs. What the kernel
-- watches is read from its own interest list, and `Net.Fdevents.Reliable` says which calls of epoll_ctl
-- a kernel carries out. `none` in a handler or a response is an access out of bounds.
--
-- Bounds: a decimal print takes one round for each unit of its number, and one more; the parse of a
-- packet takes a round for each byte, since a round consumes at least one, and `out_of_rounds` tells a
-- parse without one from a packet that is not whole; a buffer grows in 32 rounds,
-- since its size doubles and stays below 2 ^ 31; an escaped text takes a round for each byte.
--
-- Not modelled: the set-up of the server and its sockets and the opening of files, which are calls of the
-- operating system for the most part; failures of the calls of pthread; the clocks of a
-- job; floating-point numbers; `errno`; leveldb, snappy and jemalloc, which are copies of other projects.
pub mod Prelude
pub mod Util
pub mod Data
pub mod Net
pub mod Serv
pub mod Tests
