-- ===== src/Lib.antt =====
-- slam is a server in C that runs Lua scripts: threads that read and write sockets hand messages to
-- worker threads through rings, and a worker runs its scripts on messages and on timers. This
-- library models parts of it and proves them correct.
--
-- The files:
--   * Base: what the models share. Base.Outcome is what a C function can do (return, fail an
--     `assert`, follow a bad pointer, run out of the fuel of its model); Base.Tests the tests and the
--     wrap-around of machine integers; Base.Lists arrays as lists; Base.Int the signed results; Base.Results what
--     holds of the result of a run, if it returns one.
--   * MessageQueue models src/io/slam_message_queue.c: `slam_message_queue_X` is `X` (`is_empty` for
--     `slam_message_queue_empty`). The state is the record `MessageQueue`; a slot that no message was
--     written to is `none`. MessageQueue.Fifo is the bounded queue that the ring should be,
--     MessageQueue.Bounds the invariant `Holds` that ties a ring to the messages in it,
--     MessageQueue.Refine what each operation does under it, MessageQueue.History whole histories of
--     calls, and MessageQueue.Drain the deletion of a ring. MessageQueue.Ends has two threads at the
--     ring's two ends, one access to shared memory after the other, each seen at once by the other
--     thread; MessageQueue.Window is their invariant, MessageQueue.Pushing and MessageQueue.Popping
--     are about the steps of either, and MessageQueue.Crossing about what the ring promises both.
--   * TimerList models src/slam_timer_list.c: `slam_timer_list_X` is `X`, `slam_timer_new` and
--     `slam_timer_delete` are `timer_new` and `timer_delete`. The nodes lie in a memory from
--     addresses to nodes (TimerList.Heap); a pointer to a freed node or a null pointer makes a run
--     `fault`. TimerList.Spec is the ordered list that the linked list stands for, TimerList.Chain
--     the invariant `Holds` that ties both, TimerList.Link, TimerList.Add, TimerList.Remove and
--     TimerList.Find the operations, TimerList.Firing the loop `slam_timer_list_run`, and
--     TimerList.Rounds and TimerList.Once what that loop does. The clock is an argument.
--   * Message models src/io/slam_message.c, with the bytes of a buffer in Message.Cells.
--   * Socket models the reading and sending of messages in src/io/slam_socket.c: `read_bytes` is
--     `slam_socket_read_bytes`, and a round of `slam_socket_poll_read` is `prepare` and `advance`.
--     `recv` is an argument; Socket.Kernel has its answers and, in `IsStream`, what its manual says of
--     them. Socket.Reads is about `read_bytes`, Socket.Framing says what a message in a stream is and
--     why the loop ends, Socket.Starts, Socket.Prepare and Socket.Advance are about the parts of a
--     round (`advance` with Socket.Steps), Socket.Polling about the whole loop.
--     Socket.Sending models `slam_socket_poll_write` as `poll_write`, with `send` an argument;
--     Socket.Fronts is about the message at the front of the queue, Socket.Sends and Socket.Writes
--     about the loop.
--   * ByteBuffer models src/slam_byte_buffer.c: `slam_byte_buffer_X` is `X`. ByteBuffer.Bounds has the
--     invariant that ties a buffer to the bytes in it, ByteBuffer.Writing and ByteBuffer.Reading what
--     writing and reading do, ByteBuffer.History whole histories of calls against a list.
--     Socket.Opening models the making, binding, connecting, accepting and deleting of sockets, and
--     Socket.Descriptor shows that reading and writing keep a socket's descriptor, and reading all
--     but the message begun. Socket.Sample is a socket and a kernel for the tests.
--   * System is the interface of the system calls, a parameter of Poll, Socket.Opening, IoThread and
--     Runnable.Worker: operations on the state of the rest of the world.
--   * Poll models src/io/slam_poll.c: `slam_poll_X` is `X`.
--   * IoThread models src/io/slam_io_thread.c: `slam_io_thread_X` is `X`, and `do_events` with
--     `do_event` is the loop over the events. IoThread.Interface has what the other threads call
--     (`slam_io_X` is `X`), IoThread.Table the invariant of the table of sockets, IoThread.Removal what the
--     removal of a socket and an answer do, and IoThread.Receiving what a readable connection gives the
--     worker. The thread calls Socket and Poll, and puts
--     messages into the ring that the worker reads.
--   * Lua models src/slam_lua.c over Lua.Api, the functions of Lua's C interface: `slam_lua_X` is `X`,
--     but `push_lvalue` is `slam_lua_pushvalue`. The files and the registration of names are in
--     Lua.Registering, the name of a file without its suffix in Lua.Names (Lua.Suffix is about it).
--     Lua.Value models src/slam_lua_value.c, Lua.Event src/slam_lua_event.c, Lua.Func the functions for
--     sockets and messages of src/slam_lua_func.c, and Lua.Database and Lua.Sql the functions of
--     src/slam_lua_db.c and their SQL text.
--     Lua.Balance has what Lua's manual says of the stack (`IsLua`) and what a call leaves on it,
--     Lua.Events what the events leave, Lua.Commands which text is run, and Lua.Responding what an
--     answer tells the script. Lua.Assignments has the SQL text that a record should become and what it
--     means that Lua walks over a table; Lua.Encoding and Lua.Inserting are about the text that is run.
--     Lua.Rows models the result of a query, with MySQL's result set an argument; Lua.Decoding and
--     Lua.Querying are about it. Lua.Timers models the functions for timers of src/slam_lua_func.c, and
--     Lua.Scheduling is about them; Lua.Printing models what src/slam_lua.c prints of values and tables.
--     Lua.Sample is a Lua for the tests, and IoThread.Sample a kernel.
--   * Db models src/db/slam_db.c and slam_db_conf.c: `slam_db_X` is `X`, over MySQL's client library.
--   * Runnable models the timers of src/slam_runnable.c: `slam_runnable_add_timer` is `add_timer`,
--     `slam_runnable_remove_timer` is `remove_timer`; Runnable.Timers is about them, and
--     Runnable.Seeking and Runnable.Cancelling about timers whose functions remove timers. Runnable.Worker
--     models the handling of the ring's messages and the loop of a worker, which calls the events of
--     the script and the timers; the state of the scripts holds the table of messages and the timers,
--     which a script's calls change. Runnable.Serving is about the messages. Runnable.Lifecycle models making
--     and deleting a worker and loading its script, as `load_script`.
--   * Main models the command line, the start of the workers and the loop of src/slam_main.c
--     (`slam_main_X` is `X`), and the handler of src/slam_signal.c; Main.Starting is about them.
--     Main.Process models what a worker process sets up and what its exit gives back.
--   * Protocol models the table of message names in src/slam_protocol.c: `slam_protocol_X` is `X`, with
--     Protocol.Table about it. The registration with MessageBuilder is an argument.
--     Protocol.Wire models the packed header, encoding and decoding, and
--     Protocol.Framed is about them; the payload of a table is MessageBuilder's, an argument.
--   * MessageBuilder models the library in src/MessageBuilder that src/slam_protocol.c calls, over
--     protobuf's reflection as a record: MessageBuilder.Encoding and MessageBuilder.Decoding the
--     functions of luaT_message_parser.cpp, and MessageBuilder.Parser `MessageParser` with the functions
--     `MessageBuilderX` as `builder_x`. MessageBuilder.Stack is about the decoding of a message,
--     MessageBuilder.Decoded and MessageBuilder.Encoded about what a caller sees. MessageBuilder.Files is
--     the walk over the .proto files, and MessageBuilder.Loading about it.
--   * Utils models src/slam_utils.c: `slam_X` is `X`. Utils.Hash is about the hash of a string, and
--     Utils.Errors about the texts of errors.
--   * Spinlock models src/io/slam_spinlock.c: `slam_spinlock_X` is `X`, and `lock_round` a round of the
--     loop of `slam_spinlock_lock`. Spinlock.Threads has threads that change a shared value behind a
--     lock, one step at a time in any order; Spinlock.Exclusion the invariant, and Spinlock.Serial what
--     becomes of the value.
--   * ThreadCond models src/io/slam_thread_cond.c: `slam_thread_cond_X` is `X`, over the thread library
--     as a record. ThreadCond.Life is about making and deleting, ThreadCond.Deadline about the time.
--   * A module whose name ends in Tests holds runs on concrete data and each theorem at a concrete
--     input.
--
-- The loops of the timer list follow pointers, so they take fuel, and the theorems say how much is
-- enough: the walks along the list need one unit for each node and one for the end, the loop of
-- `slam_timer_list_run` one for each expired timer and one more. The loop of
-- `slam_message_queue_delete` has fuel for each position and one more, which its theorem shows to be
-- enough. `read_bytes` takes fuel for each byte asked for and each interruption by a signal, and the
-- loop of `slam_socket_poll_read` two units for each byte still to come and one for each byte kept;
-- `poll_write` takes one for each byte left to send and one for each interruption.
-- The loops of the input and output thread and of a worker take fuel for each round; the worker's loop
-- over the messages takes one unit for each message and one for the end. The walk over a table that
-- becomes SQL takes one for each entry and one for the end, and the walk over a result one for each row
-- and one for the end.
-- Decoding takes fuel for each message within a message, and so does encoding, which also takes fuel for
-- the entries of a table; the walk over the .proto files takes one unit for each folder in a folder.
-- The call of a timer's Lua function is an argument of the loop; TimerList.Calls says what
-- the theorems ask of it.
--
-- Integers are natural numbers with the wrap-around of their width written out. `assert` is on, since
-- the build is a debug build. Memory is always granted.
--
-- Not modelled: printing (but of Lua's values) and the log, which only pass on to other libraries;
-- protobuf, which reads the .proto files that MessageBuilder names; the game's Lua scripts. Threads are
-- modelled for the spin lock and for the ring's two ends; of a worker a history is a sequence of whole
-- calls. A descriptor is no negative number, but where a script gives one.
pub mod Base
pub mod MessageQueue
pub mod MessageBuilder
pub mod TimerList
pub mod Message
pub mod Socket
pub mod ByteBuffer
pub mod Runnable
pub mod Protocol
pub mod System
pub mod Poll
pub mod IoThread
pub mod Lua
pub mod Db
pub mod Main
pub mod Utils
pub mod Spinlock
pub mod ThreadCond
