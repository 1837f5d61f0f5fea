-- ===== src/IoThread/Sample.antt =====
-- A kernel for the tests: it answers from a list of rounds of events and keeps the descriptors that were
-- closed.
use slam.Base.{ℕ, Bool, true, false, none, some, List, [], ◌∷◌, length}
use slam.Lua.Api.{Text}
use slam.Message.{Message}
use slam.MessageQueue.{MessageQueue}
use slam.Socket.Kernel.{Recv}
use slam.Socket.Sending.{Send}
use slam.System.{System, Accept, Event, Wait}
use slam.IoThread.{Setup}

pub record World : Type 0 where
  pub rounds : List (List Event)
  pub closed : List ℕ

abbrev pub wait_round : World → Wait × World
wait_round w = elim w.rounds [
  | [] ↦ (Wait.failed, w)
  | es ∷ rest ↦ (Wait.events es, record w { rounds = rest })
]

abbrev pub no_more : List (List Event) → Bool
no_more [] = true
no_more (es ∷ rest) = false

abbrev pub kernel : System World Text
kernel = record {
  halted = λ w. no_more w.rounds;
  open_socket = λ w. (some 9, w);
  reuse_port = λ w fd. (true, w);
  set_nonblocking = λ w fd. (true, w);
  set_blocking = λ w fd. (true, w);
  bind = λ w fd a port. (true, w);
  listen = λ w fd. (true, w);
  catch_alarm = λ w. w;
  restore_alarm = λ w. w;
  alarm = λ w n. w;
  connect = λ w fd a port. (true, w);
  accept = λ w fd. (Accept.would_block, w);
  close = λ w fd. record w { closed = fd ∷ w.closed };
  shutdown = λ w fd. w;
  recv = λ w fd n. (Recv.closed, w);
  send = λ w fd cs. (Send.took (length cs), w);
  epoll_create = λ w. (4, w);
  epoll_add = λ w epfd fd flags. (true, w);
  epoll_del = λ w epfd fd. (true, w);
  epoll_mod = λ w epfd fd flags. (true, w);
  epoll_wait = λ w epfd n timeout. wait_round w;
}

abbrev pub small_ring : MessageQueue Message
small_ring = record {
  queue = none ∷ none ∷ none ∷ [];
  maxsize = 3;
  rindex = 0;
  windex = 0;
  read_number = 0;
  write_number = 0;
}

abbrev pub setup : Setup
setup = record {
  poll_event_number = 8;
  max_package_size = 64;
  socket_send_queue_size = 3;
  fd_io = 2;
  fd_worker = 3;
  worker_poll = record { epfd = 7 };
  accepts = 4;
  rounds = 4;
  reads = 4;
  writes = 4;
}
