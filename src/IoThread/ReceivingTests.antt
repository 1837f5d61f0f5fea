-- ===== src/IoThread/ReceivingTests.antt =====
-- A connection of src/io/slam_io_thread.c that gives a message and a part of one, and the theorem at that
-- input.
use slam.Base.{ℕ, refl, inl, true, none, some, List, [], length, arith, ◌==◌, if◌then◌else◌}
use slam.Lua.Api.{Text}
use slam.Socket.Sample.{
  recv, recv-IsStream, empty_queue, empty_queue-Holds, fresh_socket, two_messages,
}
use slam.Socket.Sending.{Send}
use slam.System.{System, Accept, Wait}
use slam.IoThread.{IoThread, Setup}
use slam.IoThread.Sample.{setup}
use slam.IoThread.Receiving.{Received, read_socket_lem}

-- The world is what the peer still sends.
abbrev stream_kernel : System (List ℕ) Text
stream_kernel = record {
  halted = λ w. true;
  open_socket = λ w. (some 9, w);
  reuse_port = λ w fd. (true, w);
  set_nonblocking = λ w fd. (true, w);
  set_blocking = λ w fd. (true, w);
  bind = λ w fd a port. (true, w);
  listen = λ w fd. (true, w);
  catch_alarm = λ w. w;
  restore_alarm = λ w. w;
  alarm = λ w n. w;
  connect = λ w fd a port. (true, w);
  accept = λ w fd. (Accept.would_block, w);
  close = λ w fd. w;
  shutdown = λ w fd. w;
  recv = recv;
  send = λ w fd cs. (Send.took (length cs), w);
  epoll_create = λ w. (4, w);
  epoll_add = λ w epfd fd flags. (true, w);
  epoll_del = λ w epfd fd. (true, w);
  epoll_mod = λ w epfd fd flags. (true, w);
  epoll_wait = λ w epfd n timeout. (Wait.failed, w);
}

abbrev one_connection : IoThread
one_connection = record {
  mq = empty_queue;
  poll = record { epfd = 4 };
  sockets = λ fd. if fd == 7 then some fresh_socket else none;
}

abbrev patient : Setup
patient = record setup { rounds = 60; reads = 80 }

read_socket_lem_example :
    Received stream_kernel patient recv-IsStream two_messages one_connection 7 fresh_socket [] []
read_socket_lem_example =
    read_socket_lem stream_kernel patient recv-IsStream two_messages one_connection 7 fresh_socket
      [] [] [] (omega arith) refl refl refl (inl (refl, refl)) empty_queue-Holds (omega arith)
      empty_queue-Holds (omega arith) (omega arith)
