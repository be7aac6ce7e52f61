-- ===== src/Lib.antt =====
-- A verification library for the C and C++ programs of this repository. They are separate programs;
-- what joins some of them is a map or a buffer of the kernel between a probe and a reader, or a
-- socket.
--
-- * Block I/O histograms, tools/BPF-tools/new/2019-05-21. A probe in the kernel computes a bucket
--   index from the size of each request and counts it in a hash map; the user side walks the map,
--   prints histograms and clears the map. Log2.antt has `log2` and `log2l` of bitesize_kern.c.
--   Histogram.antt has `stars`, the tally of an entry and the printing loop that bitesize_user.c
--   and bitehist_user.c share. Bitesize.antt has the keys, Bitesize/Kern.antt `bpf_prog1`,
--   Bitesize/User.antt `print_log2_hist_for_pid`, `print_log2_hists` and `clear_hash`,
--   Bitesize/Main.antt `main` and the handler of SIGINT. Bitehist.antt has both sides of bitehist,
--   BitehistArray.antt those of its first version, in tools/BPF-tools/old/2015-03-25, which counts in
--   an array map.
-- * Probes of tools/BPF-tools/old. Probes/Iosnoop.antt has both probes of 2015-03-25/iosnoop_kern.c
--   and of 2015-08-15/disksnoop.c, Probes/Vfsreadlat.antt those of vfsreadlat.c,
--   Probes/Counters.antt bitehist.c, vfsstat.c and pidpersec.c of the same directory,
--   Probes/Filters.antt 2014-02-05/bigreads.c and 2017-02-19/kca_from.c. What the probes of iosnoop
--   print goes through the trace pipe of the kernel to 2015-03-25/iosnoop_user.c:
--   IosnoopUser/Printed.antt has the message of iosnoop_kern.c and the line it stands in,
--   IosnoopUser/Line.antt the reading of a line, the printed row and `main`.
-- * The TCP drop tracer, network/ebpf/libbpf_tcptrace. Tcptrace.antt has the event of
--   test_tcptrace.h in memory, Tcptrace/Kernel.antt `handle_tp` of test_tcptrace.bpf.c; of
--   test_tcptrace.c, Tcptrace/Flags.antt has `flags2str`, Tcptrace/Printing.antt `handle_event`,
--   Tcptrace/Session.antt `main`.
-- * The load generator flamegraph_sample/fileio/file_io_test.c. FileIo.antt has its four loops,
--   the handler and `main`.
-- * The counters concurrent/mutex_cost/mutex_cost.cpp and atomic_cost.cpp. MutexCost.antt has the
--   steps of their threads.
-- * The pair in network/unix_domain_socket. UnixSocket.antt has `main` of uds_server.c and of
--   uds_client.c.
-- * The context switch demo cpu/cswch_demo/process_ctxswch.c. SwitchDemo.antt has both processes.
-- * The packet servers network/byte_order/case1_pragma_pack1/server.cpp to
--   case4_client_rawdata/server.cpp. PacketServer.antt has the layouts, `recvAll` and
--   `calculateChecksum`, PacketServer/Serve.antt `main`.
-- * The classes over `select`, `poll` and `epoll` of ioserver_demo/src/server/io_multiplexing.cpp.
--   Multiplex/Select.antt, Multiplex/Poll.antt and Multiplex/Epoll.antt have one each,
--   Multiplex/Refines.antt the abstract view of what an object watches.
-- * The server and the benchmark client of ioserver_demo. IoServer/Db.antt has db_manager.cpp,
--   IoServer/Request.antt the handling of a request and IoServer/Server.antt the rest of
--   server.cpp, IoServer/Benchmark.antt client.cpp. The server hands each event of the epoll object
--   to a thread pool as a task, which runs the handler.
--   The JSON library answers as documented: what throws gives no value and has a text for `what`,
--   and a constant value without a member is a failed assertion.
-- * The programs in network/tcp_connect, network/tcp_connect_fin_wait2 and
--   network/tcp_timewait_rcv_syn. TcpSamples.antt has their `main`.
-- * The thread pools of ioserver_demo/src/common, thread_pool, concurrent/base and
--   concurrent/std_async. ThreadPools.antt has their steps, ThreadPools/Classes.antt what the
--   classes differ in, ThreadPools/Resize.antt `resize` of ioserver_demo, ThreadPools/Chunks.antt
--   the sample programs that add up chunks of their data, ThreadPools/Awaiting.antt how these wait
--   for the result.
--
-- State is passed explicitly. Unsigned integers are native numbers with their reduction written
-- out; `long` counts are native numbers, and an operation that would leave their range, divide by
-- 0 or leave an array gives `none`. The kernel's maps are not code of the repository: BpfMap.antt
-- is an interface with the documented behaviour of hash maps, which BpfMap/Assoc.antt fills by
-- association lists, and BpfArray.antt one of array maps, filled by functions. What the operating
-- system answers (descriptors, counts, errors, requests in an interval, numbers of `rand`) is an
-- argument.
--
-- Loops recur on the list or on the rounds left. The walk over a map takes one call for each entry
-- that the map can hold and one more, which suffices since it visits no key twice; the walk that
-- clears a map has as much, and deletes a key in each turn. `write_loop` has a turn for each
-- buffer that fits the 50 MB and one more. The numbers of digits printed are those of a byte and
-- of a port. `recvAll` has a turn for each byte that it waits for, since every call that goes on
-- takes one. The loop that enqueues chunks has a turn for each value of the data.
--
-- A thread pool is a step relation: a step is what a thread does while it holds the mutex, or between
-- two such parts. The flag of a stop and the entry of a task are steps of their own, and so are the
-- notifications behind them, which the pool counts while they are still to come. Interleavings inside
-- such a part, and those of several handlers of the server, are not in the model.
--
-- Not modelled: time stamps, the line that bitesize prints when it starts, column widths of the
-- printed histograms, concurrent changes of a map during a walk; the crash handler, the log and the
-- latencies of ioserver_demo; the clients of the packet servers; the other C++ samples; the copies
-- of other projects' libraries (dlmalloc, hiredis, spdlog, json), and vfscount.c, which rests on
-- `lookup_or_init` of BCC.
pub mod Prelude
pub mod Log2
pub mod BpfMap
pub mod BpfArray
pub mod Histogram
pub mod Bitesize
pub mod Bitehist
pub mod BitehistArray
pub mod Probes
pub mod Tcptrace
pub mod PacketServer
pub mod MutexCost
pub mod Multiplex
pub mod IoServer
pub mod IosnoopUser
pub mod TcpSamples
pub mod ThreadPools
pub mod FileIo
pub mod UnixSocket
pub mod SwitchDemo
mod Tests
