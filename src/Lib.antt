-- ===== src/Lib.antt =====
-- A network library and the base of a chat server: an event loop that watches descriptors, channels
-- that dispatch their events, connections with their byte buffers, and the dates and log lines of
-- the base. The files and the code that they model, with paths from the repository's root:
--
--   Common         names, lists, integers, machine words and outcomes that the others share
--   Buffer         net/buffer.h, net/buffer.cpp and net/endian.h: `Buffer`. The vector is a list of
--                  bytes, a pointer into it an offset. Valid has the invariant of the indices, Room
--                  makeSpace and ensureWriteableBytes, Append and Retrieve the writers and readers,
--                  Search findCRLF and findEOL, Integers the integers in network order, ReadFd readFd
--   Date           base/date.h and base/date.cpp: Julian day numbers. Cycles has the arithmetic of
--                  the cycles of years and months, Ranges the values that are computed on the way, Calendar the
--                  calendar
--   TimeZone       base/time_zone.h and base/time_zone.cpp: `toUtcTime` and its inverse, compared in
--                  Utc, the search of the transitions in Transitions, local times in Local; Files
--                  is the reader of zone files, which throws by the constructor `threw`
--   Channel        net/channel.h and net/channel.cpp: the events of a descriptor, and in Dispatch
--                  the callbacks of `handleEvent`
--   Poller         net/poller.cpp and net/epoll_poller.cpp: the map of watched channels
--   TcpConnection  net/tcp_connection.h and net/tcp_connection.cpp: a connection in its loop's
--                  thread. Stream has the bytes that it sends, SendBuffer those of a whole buffer,
--                  Steps what one event does to its state, Lifecycle the states over a row of events
--   EventLoop      net/event_loop.h and net/event_loop.cpp: the tasks that wait for the loop's
--                  thread, in Pending a round of them, in Looping the rounds of `loop`, in
--                  Interleaving the steps of all threads, in Stranded what becomes of the tasks
--   TimerQueue     net/timer.h, net/timer.cpp, net/timer_queue.h, net/timer_queue.cpp and
--                  base/time_stamp.h: the two sets of timers, in step in Ordered, in Expired the
--                  timers that are due, in Cancel the timer that is cancelled, with Erase, in RoundTrip
--                  one that is added and cancelled. A pointer to a timer is a number
--   ThreadPool     net/eventloop_threadpool.h and net/eventloop_threadpool.cpp: the choice of a loop
--   TcpServer      net/tcp_server.h and net/tcp_server.cpp: the table of connections, with the pool of
--                  loops. Names has the names of connections, Table the table, Serving a row of
--                  new and closed connections
--   Connector      net/connector.h and net/connector.cpp: the tries of a client and their delays
--   TcpClient      net/tcp_client.h and net/tcp_client.cpp: the connection of a client, with the tries
--                  of its Connector. Lives has its connections over a row of calls, Names their names
--   Acceptor       net/acceptor.h and net/acceptor.cpp, with `accept` of net/socketops.cpp and the
--                  channel of the socket. Descriptors has the descriptors that it opens, closes and gives away
--   InetAddress    net/inetaddress.h, net/inetaddress.cpp and the addresses of net/socketops.cpp, in Texts
--                  their texts
--   CountDownLatch   base/count_down_latch.h and base/count_down_latch.cpp, in Waiting the threads that
--                  wait, in every order of their steps
--   MThread        base/m_thread.h and base/m_thread.cpp, in Starting a thread that is started, with the
--                  latch at which its maker waits
--   ProcessInfo    base/process_info.cpp: what is read out of /proc, in Procname the name
--   StringPiece    base/string_piece.h, in Order the comparison of pieces
--   LogStream      base/log_stream.h and base/log_stream.cpp: the buffer of a log line, Decimal the
--                  decimal text of integers, Hex the pointers, Room the room of the buffer and the scale
--                  of formatSI, Iec that of formatIEC
--   Logging        base/logging.h and base/logging.cpp: a log line, in Head what its constructor writes
--   LogFile        base/log_file.h, base/log_file.cpp and AppendFile of base/file_util.cpp. Writes has the
--                  loop around fwrite, Rolls what a roll and a flush keep, Lines a row of lines, Bounds
--                  the size of a file
--   ReadSmallFile  ReadSmallFile and read_file of base/file_util.h and base/file_util.cpp, in Contents
--                  what is read
--   AsyncLogging   base/asynclog.h and base/asynclog.cpp, with the buffers of LogStream and the files of
--                  LogFile. Front has `append`, Rounds the rounds of the thread that writes
--   ConfigureFileReader   base/config_file_reader.h and base/config_file_reader.cpp: the settings of a
--                  file. Words has the parts of a line, RoundTrip what is read back
--
-- A connection holds two buffers, a channel and the poller of its loop; its operations call theirs.
-- An operation that can stop at an `assert` returns an `Outcome`: `ok` with the new state, or
-- `fault`. Assertions are taken to be compiled in. A size_t is a number below 2 ^ 64 and its
-- arithmetic wraps; a valid buffer is below 2 ^ 63 bytes. The loop of `convert` has fuel for 20
-- digits, that of `convert_hex` for 16, enough for 64 bits; that of `read_to_string` for each byte that
-- is read and one more; that of `AppendFile::append` for each byte of the line and one more; that
-- of `Load_file` for each byte of the file. The integers of the dates and times are
-- those of ℤ: Ranges shows for which years `int` has room for those of the dates.
--
-- The kernel's answers (readv, write, epoll_ctl, epoll_wait, accept, open, read, fstat, pthread_create)
-- and the macros of <endian.h> are arguments, and so are `atoi`, `inet_ntop` and `inet_pton`,
-- `gmtime_r`, `timegm`, fwrite, fopen, what %d and %u write, the callbacks, and what stands for the
-- result of `TimerQueue::insert`, which has no return.
--
-- Not modelled: the log lines that the other parts write, which are taken to be written and to return;
-- locks (an operation that holds one is a step); the queues of base, which do not compile as they
-- stand; the wrappers of system calls; and text made by snprintf, but for the names of connections
-- and threads and the ports of addresses.
pub mod Common
pub mod Buffer
pub mod Date
pub mod TimeZone
pub mod Channel
pub mod Poller
pub mod TcpConnection
pub mod EventLoop
pub mod TimerQueue
pub mod ThreadPool
pub mod TcpServer
pub mod Connector
pub mod TcpClient
pub mod Acceptor
pub mod InetAddress
pub mod CountDownLatch
pub mod MThread
pub mod ProcessInfo
pub mod StringPiece
pub mod LogStream
pub mod Logging
pub mod LogFile
pub mod ReadSmallFile
pub mod AsyncLogging
pub mod ConfigureFileReader
