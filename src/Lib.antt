-- ===== src/Lib.antt =====
-- Verification of xynet, a C++ networking library over io_uring with coroutines.
--
-- The program. An asynchronous operation (include/xynet/async_operation_base.h and
-- detail/async_operation.h) is awaited by a coroutine; it is submitted to the io_service of its
-- thread (io_service.h), whose event loop takes completions from the kernel and operations from
-- other threads, and runs their callbacks. A transfer (socket/impl/send_all.h and recv_all.h) keeps
-- a buffer sequence (buffer.h), commits what each completion reports, and submits the rest. On top
-- are WebSocket frames (http/websocket_frame_header.h and websocket_frame_mask.h) and their
-- handshake (http/websocket_request_handler.h), a stream buffer
-- (stream_buffer.h) and the operations of a socket (file_descriptor.h, socket/impl). The examples put
-- these together: small servers behind an acceptor (example/include/common/server.h, example/simple
-- and example/pingpong), a chat server over lines (example/chat) and servers over WebSocket frames
-- (example/include/common/websocket.h and example/websocket).
--
-- The files. Each names the code it is about in its first lines, and its definitions have the
-- names of the source.
--   Prelude        lists, Boolean tests, bit operations and integers over the native numbers
--   Websocket      Flags, Header (the builder), Mask, Parser; Header/Layout is the wire format of
--                  RFC 6455 as a list of bytes; Parser/Scan is a machine of one byte a step
--   Buffer         buffer_sequence and commit
--   Operation      async_operation_base, the policies, error codes
--   Transfer       async_sendmsg (Send) and async_recvmsg (Recv); Rounds runs one of them against
--                  a kernel that answers every submission; Calls has the members send and recv
--   StreamBuffer   stream_buffer; Slices has the lemmas on slices of the vector, Room what `reserve`
--                  leaves, Queue the operations
--   IoService      the event loop in small steps; Steps has its interleavings with other threads
--                  and the kernel, Wakeup the wait of the loop, Account its queues, Round the
--                  steps of one turn, Wakes what a remote operation leads to, Run the turns up to a
--                  stop, Thread the service and its thread
--   Submission     try_submit_io, submit and try_start over a submission queue; Entries has the room
--                  for the entries, Links the linked timeouts and the way of a completion, Schedule
--                  schedule_operation
--   Handshake      http_parser and websocket_request_handler; Base64, Strings, and Response, what is
--                  answered to which request
--   Timeout        timeout_storage, and the results of detail/throw_or_return.h
--   Socket         the descriptor, system calls (Sync), accept, connect and close (Async), accept and
--                  connect from the call to its end (Calls), Address; Text is the text of an
--                  address, DecimalText one choice of what it relies on
--   Chat           chat_server.cpp; Room and its children the participants and messages, Lines the
--                  lines of a stream, Reader the reader of a session, Writer its writer between
--                  the steps of the others, Session a reader in its room
--   Connection     common/websocket.h; Shake the handshake, Receive the receipt of a frame, Frames
--                  the frames that are sent, Replies the echo and chat servers with a client, Session
--                  the reader and writer of websocket_chat.cpp, Served a connection to its end,
--                  EchoSession the sessions of websocket_echo.cpp and websocket_discard.cpp
--   Serving        the sessions of example/simple and example/pingpong: Await a send of a session,
--                  Echo the loop that echoes, Finish the end of a socket, Lines chargen, Pingpong
--                  the client with its total; Time is time.cpp, with Memory, what is stored where;
--                  Acceptor is that of example/include/common/server.h, Clients whom it serves
--   Echo           echo_revised.cpp
--   Modules        detail/module_list.h and the templates of file_descriptor.h, as functions on lists
--   Ttcp           the client and the server of example/ttcp; Session both together
--
-- State and operations. A class is a record with the names of its members; a member function is a
-- function from the record to the record, with what it returns. A pointer into a vector is an
-- offset, `none` is a null pointer, an `int` result of the kernel is an integer, an address is a
-- number. `size_t` and `int` are numbers with their wrap-around written out where it can occur.
-- Where a function throws, the result says so.
--
-- Fuel. The `for` loop of the frame parser runs on as many rounds as it is given bytes; an open
-- parser takes a byte at least in every round. The inner loop of the chat reader has one round more
-- than there are bytes; each round but the last takes a byte at least.
--
-- Parameters. What the kernel answers to a submission or a system call is an argument. The
-- eventfd, the submission queue of io_uring, the auto-reset event of coroutine/, the byte order and
-- the texts of addresses of the C library, and the place of a vector in memory, are records of
-- operations with the laws that the code relies on. `phr_parse_request` and `SHA1` are functions;
-- the digest has 20 bytes.
--
-- Not modelled: http/picohttpparser.h, a copy of another project; coroutine/, compiler-made frames
-- and an adapted copy of cppcoro; files and splice, which name an async_operation and a header
-- that are not there any more and do not compile; the deduction guides, which are types; the main
-- functions and the clients that print; daytime.cpp, whose work is the text of a
-- date; and the tests.
pub mod Prelude
pub mod Buffer
pub mod Chat
pub mod Connection
pub mod Echo
pub mod Handshake
pub mod IoService
pub mod Modules
pub mod Operation
pub mod Serving
pub mod Socket
pub mod StreamBuffer
pub mod Submission
pub mod Timeout
pub mod Transfer
pub mod Ttcp
pub mod Websocket
