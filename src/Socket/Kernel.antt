-- ===== src/Socket/Kernel.antt =====
-- What `recv` gives to the code of src/io/slam_socket.c, and what its manual says of it.
use slam.Base.{ℕ, ◌+◌, ◌≤◌, ◌≡◌, List, [], ◌∷◌, ◌++◌, length}

pub data Recv : Type 0 where
  -- at least one byte
  got : ℕ → List ℕ → Recv
  -- 0: the peer has closed the connection
  closed : Recv
  -- -1 with EINTR
  interrupted : Recv
  -- -1 with EAGAIN or EWOULDBLOCK
  would_block : Recv
  -- -1 with another error
  failed : Recv

abbrev pub given : Recv → List ℕ
given (Recv.got b bs) = b ∷ bs
given Recv.closed = []
given Recv.interrupted = []
given Recv.would_block = []
given Recv.failed = []

abbrev pub interruptions : Recv → ℕ
interruptions (Recv.got b bs) = 0
interruptions Recv.closed = 0
interruptions Recv.interrupted = 1
interruptions Recv.would_block = 0
interruptions Recv.failed = 0

-- `recv` on a stream socket: at most `size` bytes, in order and none lost, and a finite number of
-- interruptions by signals.
pub record IsStream {W : Type 0} (recv : W → ℕ → ℕ → Recv × W) : Type 0 where
  -- the bytes that the peer sends and that `recv` has not given yet
  pub incoming : W → ℕ → List ℕ
  -- the interruptions still to come
  pub signals : W → ℕ
  pub fits : (w : W) (fd size : ℕ) → length (given (recv w fd size).0) ≤ size
  pub conserves :
      (w : W) (fd size : ℕ)
      → incoming w fd ≡ given (recv w fd size).0 ++ incoming (recv w fd size).1 fd
  pub patience :
      (w : W) (fd size : ℕ)
      → interruptions (recv w fd size).0 + signals (recv w fd size).1 ≤ signals w
