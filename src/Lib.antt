-- ===== src/Lib.antt =====
-- A verification of multithread-libevent-example: an echo server with one event loop per thread.
--
-- The parts of the program, and the files that model them:
--
-- buffer.h, buffer.cc: Buffer (with Buffer/). A queue of bytes in chunks of memory. Buffer/Memory has
-- `Chunk_`, the record Buffer the fields of the class, and each operation is a function of the same name
-- in snake case (`push`, `drain`, `data_of` for data, `data_chunk`, `space`, `space_chunk`,
-- `space_have_seted`, `at` for operator[], `swap`). Buffer/Valid has the invariant, Buffer/Push, Drain,
-- Read, Join and Space what each operation does to the queue, Buffer/Refine the class against a list.
--
-- handler.h, handler.cc: Handler (with Handler/). The echo handler of one connection, which moves bytes
-- from its read buffer to its write buffer. Handler/Socket is the interface of the socket, with what POSIX
-- says of recv and write as laws. Handler/Reading and Writing treat the loops, Stream the callbacks, Run
-- whole connections.
--
-- thread_pool.h, thread_pool.cc: ThreadPool (with ThreadPool/). Tasks in levels of priority and the
-- threads that run them. Each part under the mutex is one step; Step is the relation of the steps of all
-- threads, Reach what any sequence of them leads to. ThreadPool/Tasks has the queues, Ledger their order,
-- Shutdown and Drain the end of a pool.
--
-- dispatcher.h, dispatcher.cc: Dispatcher (with Dispatcher/). Callbacks that any thread hands to the
-- thread of an event loop, again as a relation of steps. Dispatcher/Order has their order, Progress what the
-- loop does with them, Join the thread that waits.
--
-- listener.h, listener.cc: Listener (with Listener/). The listening socket of a loop: `open`, `doAccept`
-- and the destructor, over Listener/Net, the interface of the operating system. main.cc joins the parts: a
-- listener and a dispatcher for each thread of a pool, and a handler for each accepted connection.
--
-- ExtNet/Net/WsService.cpp, ExtNet/ws/WsConnectMgr.cpp, and the callback of ExtNet/Net/TcpService.cpp:
-- Service (with Service/). A second server's registry of connections: connections are objects at
-- addresses, and the registry maps numbers to them. Service/Registry has the lemmas on the two lists,
-- Service/Keep the operations, Service/History their sequences, and Service/Stop the loop of OnStop, whose
-- rounds another thread makes while callbacks of the loop still run.
--
-- Service/Start has how the service starts to listen, over the interface of Listener/Net, and Service/Tcp
-- the service of plain connections, ExtNet/Net/TcpService.cpp and ExtNet/tcp/TcpConnectMgr.cpp, with its
-- start in Service/TcpStart.
--
-- ExtNet/memoryBuff/memoryBuff.cpp and ListEx.h: MemoryBuff (with MemoryBuff/). The buffer that a
-- connection of the second server receives into: a list of nodes with a cursor for each direction. The
-- nodes are objects at addresses, and the functions have the names of the methods in snake case.
-- MemoryBuff/Cells has the bytes of a node, Adjust each operation on the node at its cursor, Phases the
-- states that a buffer of two nodes goes through (`Holds`), Write and Read the two directions.
--
-- ExtNet/common/FdBridge.cpp: FdBridge (with FdBridge/). `read`, from the socket of Handler/Socket to a
-- memoryBuff. FdBridge/Receive has what it stores, Full the end of the second node.
--
-- ExtNet/tcp/TcpStickyWrap.cpp, `finishParse` of ExtNet/ws/WsStickyWrap.cpp, `ServerPack` and
-- `PackDealWith` of ExtNet/common/BaseType.h: Packets (with Packets/). Packets with a length and a number
-- before them. Packets/Encode has the packet for the server (`MakeServerMsg` of ExtNet/tcp/TcpConnect.cpp and
-- ExtNet/ws/WsConnect.cpp), Head the reading of the head, Connect `read` of a TcpConnect from the socket.
--
-- ExtNet/ws/WsStickyWrap.cpp: Frames (with Frames/). The state machine `parseWsHead` over the bytes of
-- WebSocket frames, and `sendFrame`. Frames/Bits has the operators on bits, Frames/Mask whole frames,
-- Frames/Length the length field, Frames/Parts data in two parts. WsRead (with WsRead/) is `readData` around
-- it: WsRead/Rounds and Received have the rounds of its loop and its memory, Heads the rounds on the head of a
-- frame, Partial and Cut heads that are not complete, Whole and Complete frames in one piece and what becomes
-- of them, Rest, Reply and Repeat such frames behind others, alone and in sequence, Pieces and Resume frames
-- that are cut within their data.
--
-- ExtNet/ws/WsConnect.cpp: WsConnect (with WsConnect/). The handshake that comes first, over a memoryBuff
-- (WsConnect/Handshake), and `read` from the socket to it (WsConnect/Serve); then the pieces that go to the
-- reader of frames (WsConnect/Feed), and `read` from the socket to it (WsConnect/Stream).
--
-- client.cc: Client (with Client/). The program that sends what is typed, and prints what comes back. Its
-- `Bufferevent` is what it uses of libevent. Client/Print has what it prints, Client/Send a line on its way to
-- the connection.
--
-- Net.cc, and the loop of ExtNet/Gate/Gate.cpp: Console (with Console/). The programs that
-- run the services until "exit" is typed: Console/Lines has their loop over the lines.
--
-- ExtNet/memoryBuff/stickyWrap.cpp: StickyWrap (with StickyWrap/). An older reader, of packets inside of
-- frames, that no program uses: `parse_frame` is its parseWsHead, `sticky_read_data` its readData.
--
-- ExtNet/Gate/GateServer.cpp: Gate (with Gate/). The program of the second server: Gate/Open has the start of
-- both services, Gate/Stop its thread and the one that stops it, as a relation of steps.
--
-- Conventions. A byte is a number, a pointer is the memory from there to the end of its block, and sizes
-- are 64-bit numbers whose sums and differences wrap around (Prelude/Words). A result in Option is `none`
-- where the source does not end or has no defined behaviour. The content of new memory is a parameter,
-- `fresh`. Loops over chunks are recursive on the list of chunks. The loop of `data` has one round more
-- than there are chunks as fuel, each round removes a chunk or is the last. The echo loop and the write
-- loop have one round more than the buffer has bytes, since each removes a byte at least. The loop of
-- recv and that of accept take their fuel from the caller, with the bytes to come, or the connections
-- that are ready, as the bound under which it is enough. The loops of FdBridge, Packets, WsRead and
-- WsConnect take fuel too, and say by `out_of_fuel` that it was not enough: the loop of `read` needs one
-- round more than bytes have arrived; of a frame in one piece `readData` needs four rounds; some loops of
-- ExtNet have no end.
--
-- Not modelled: logging and what is printed but by the client, memory that cannot be allocated, the blocks
-- that a node of memoryBuff does not free, and the end of OnStop of a service with its join. Where two
-- threads use a map at the same time without a lock, the model has one access after the other. The handshake's
-- response (ExtNet/common/handshake.c) and what `send` does are parameters. sha1, base64, utf8, handshake.c
-- and ws.h in ExtNet/common are copies of other projects. main.cc and the main of client.cc only start
-- things, and so does ExtNet/Gate/Gate.cpp but for its loop.

pub mod Prelude
pub mod Buffer
pub mod Handler
pub mod ThreadPool
pub mod Dispatcher
pub mod Listener
pub mod Service
pub mod Frames
pub mod MemoryBuff
pub mod FdBridge
pub mod Packets
pub mod WsRead
pub mod WsConnect
pub mod Console
pub mod Client
pub mod Gate
pub mod StickyWrap
