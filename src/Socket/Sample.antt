-- ===== src/Socket/Sample.antt =====
-- A kernel that gives at most five bytes at a time, and a socket, for the tests.
use slam.Base.{
  ℕ, zero, suc, ◌+◌, ◌≤◌, ◌≡◌, refl, sym, ap, min, none, List, [], ◌∷◌, ◌++◌, length, length-take,
  take, drop, take-append-drop, arith,
}
use slam.Message.{Message}
use slam.MessageQueue.{MessageQueue}
use slam.MessageQueue.Bounds.{Holds}
use slam.Socket.Kernel.{Recv, IsStream, given, interruptions}
use slam.Socket.{Socket, SocketType}

abbrev pub recv : List ℕ → ℕ → ℕ → Recv × List ℕ
recv [] fd size = (Recv.would_block, [])
recv (b ∷ bs) fd zero = (Recv.would_block, b ∷ bs)
recv (b ∷ bs) fd (suc n) = (Recv.got b (take (min n 4) bs), drop (min n 4) bs)

pub recv-fits : (w : List ℕ) (fd size : ℕ) → length (given (recv w fd size).0) ≤ size
recv-fits [] fd size = omega arith
recv-fits (b ∷ bs) fd zero = omega arith
recv-fits (b ∷ bs) fd (suc n) = omega (arith, length-take (min n 4) bs)

pub recv-conserves : (w : List ℕ) (fd size : ℕ) → w ≡ given (recv w fd size).0 ++ (recv w fd size).1
recv-conserves [] fd size = refl
recv-conserves (b ∷ bs) fd zero = refl
recv-conserves (b ∷ bs) fd (suc n) = ap (◌∷◌ b) (sym (take-append-drop (min n 4) bs))

pub recv-patience : (w : List ℕ) (fd size : ℕ) → interruptions (recv w fd size).0 + 0 ≤ 0
recv-patience [] fd size = omega arith
recv-patience (b ∷ bs) fd zero = omega arith
recv-patience (b ∷ bs) fd (suc n) = omega arith

abbrev pub recv-IsStream : IsStream recv
recv-IsStream = record {
  incoming = λ w fd. w;
  signals = λ w. 0;
  fits = recv-fits;
  conserves = recv-conserves;
  patience = recv-patience;
}

abbrev pub empty_queue : MessageQueue Message
empty_queue = record {
  queue = none ∷ none ∷ none ∷ [];
  maxsize = 3;
  rindex = 0;
  windex = 0;
  read_number = 0;
  write_number = 0;
}

pub empty_queue-Holds : Holds empty_queue []
empty_queue-Holds = record {
  storage = refl;
  small = omega arith;
  reads_in = omega arith;
  writes_in = omega arith;
  fits = omega arith;
  ahead = refl;
  reads = refl;
  writes = refl;
  slots = tt;
}

abbrev pub fresh_socket : Socket
fresh_socket = record {
  fd = 7;
  kind = SocketType.connection;
  readmessage = none;
  sendmq = empty_queue;
}

-- a message of 19 bytes, and 5 bytes of one of 20
abbrev pub first_message : List ℕ
first_message =
    19 ∷ 0 ∷ 0 ∷ 0 ∷ 1 ∷ 2 ∷ 3 ∷ 4 ∷ 5 ∷ 6 ∷ 7 ∷ 8 ∷ 9 ∷ 10 ∷ 11 ∷ 12 ∷ 13 ∷ 14 ∷ 15 ∷ []

abbrev pub two_messages : List ℕ
two_messages = first_message ++ (20 ∷ 0 ∷ 0 ∷ 0 ∷ 1 ∷ [])
