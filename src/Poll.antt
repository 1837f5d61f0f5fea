-- ===== src/Poll.antt =====
-- src/io/slam_poll.c: a set of descriptors that are watched.
use slam.Base.{as_int, ℕ, ℤ, pos, minus_one, Bool, true, false, List, [], length}
use slam.System.{System, Event, Wait}

-- `struct slam_poll_s`
pub record Poll : Type 0 where
  pub epfd : ℕ

module _ {W A : Type 0} (sys : System W A) where
  -- `slam_poll_new`
  unfoldable pub new : W → Poll × W
  new w = let (epfd, w') = sys.epoll_create w in (record { epfd = epfd }, w')

  -- `slam_poll_delete`
  unfoldable pub delete : W → Poll → W
  delete w poll = sys.close w poll.epfd

  -- `slam_poll_add_socket`
  unfoldable pub add_socket : W → Poll → ℕ → Bool × W
  add_socket w poll fd =
      sys.epoll_add w poll.epfd fd
        (record { edge = true; input = true; output = false; err = true })

  -- `slam_poll_remove_socket`, whose events the kernel does not look at
  unfoldable pub remove_socket : W → Poll → ℕ → Bool × W
  remove_socket w poll fd = sys.epoll_del w poll.epfd fd

  -- `slam_poll_set_socket_pollout`
  unfoldable pub set_socket_pollout : W → Poll → ℕ → Bool → Bool × W
  set_socket_pollout w poll fd pollout =
      sys.epoll_mod w poll.epfd fd
        (record { edge = true; input = true; output = pollout; err = true })

  -- `slam_poll_wait`: the number of events, and the events; the timeout is an `int`.
  unfoldable pub wait : W → Poll → ℕ → ℤ → (ℤ × List Event) × W
  wait w poll events_size timeout =
      let (answer, w') = sys.epoll_wait w poll.epfd events_size (as_int timeout) in
      elim answer [
        | Wait.events es ↦ ((pos (length es), es), w')
        | Wait.interrupted ↦ ((pos 0, []), w')
        | Wait.failed ↦ ((minus_one, []), w')
      ]
