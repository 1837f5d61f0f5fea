-- ===== src/System.antt =====
-- The system calls that src/io makes, as operations on the state of the rest of the world. What they
-- answer is a parameter of the models that use them.
use slam.Base.{ℕ, ℤ, Bool, Option, List}
use slam.Message.Cells.{Cell}
use slam.Socket.Kernel.{Recv}
use slam.Socket.Sending.{Send}

-- the answers of `accept`
pub data Accept : Type 0 where
  got : ℕ → Accept
  -- EINTR
  interrupted : Accept
  -- EAGAIN or EWOULDBLOCK
  would_block : Accept
  failed : Accept

-- the flags of an epoll event, and the descriptor in its data
pub record Event : Type 0 where
  pub fd : ℕ
  pub err : Bool
  pub hup : Bool
  pub rdhup : Bool
  pub input : Bool
  pub output : Bool

-- the answers of `epoll_wait`
pub data Wait : Type 0 where
  events : List Event → Wait
  interrupted : Wait
  failed : Wait

-- The flags that a descriptor is watched for: EPOLLET, EPOLLIN, EPOLLOUT and EPOLLERR.
pub record Watch : Type 0 where
  pub edge : Bool
  pub input : Bool
  pub output : Bool
  pub err : Bool

-- `W` is the state of the world and `A` the type of addresses. An operation that can fail answers
-- whether it succeeded.
pub record System (W A : Type 0) : Type 0 where
  -- the flag `halt` of `slam_main_s`, which a signal sets
  pub halted : W → Bool
  pub open_socket : W → Option ℕ × W
  pub reuse_port : W → ℕ → Bool × W
  pub set_nonblocking : W → ℕ → Bool × W
  pub set_blocking : W → ℕ → Bool × W
  pub bind : W → ℕ → A → ℤ → Bool × W
  pub listen : W → ℕ → Bool × W
  -- `sigaction` for SIGALRM, and back
  pub catch_alarm : W → W
  pub restore_alarm : W → W
  pub alarm : W → ℕ → W
  pub connect : W → ℕ → A → ℤ → Bool × W
  pub accept : W → ℕ → Accept × W
  pub close : W → ℕ → W
  pub shutdown : W → ℕ → W
  pub recv : W → ℕ → ℕ → Recv × W
  pub send : W → ℕ → List Cell → Send × W
  pub epoll_create : W → ℕ × W
  pub epoll_add : W → ℕ → ℕ → Watch → Bool × W
  pub epoll_del : W → ℕ → ℕ → Bool × W
  pub epoll_mod : W → ℕ → ℕ → Watch → Bool × W
  pub epoll_wait : W → ℕ → ℕ → ℤ → Wait × W
