-- ===== src/Socket/Tests.antt =====
-- Reading from a kernel that gives at most five bytes at a time, and the theorem at a concrete input.
use slam.Base.{
  ℕ, ◌≡◌, refl, inl, true, none, List, [], arith, Run, ret, abort, fault, stuck, Bool, Option, some,
}
use slam.Message.{Message}
use slam.MessageQueue.{MessageQueue}
use slam.Socket.Polling.{Polls, poll_read_lem}
use slam.Socket.Sample.{
  recv, recv-IsStream, empty_queue, empty_queue-Holds, fresh_socket, two_messages,
}
use slam.Socket.{Socket, poll_read}

poll_read_lem_example :
    Polls recv 64 recv-IsStream 60 80 7 two_messages fresh_socket empty_queue [] []
poll_read_lem_example =
    poll_read_lem recv 64 recv-IsStream 60 80 7 two_messages fresh_socket empty_queue [] [] refl
      (inl (refl, refl)) empty_queue-Holds (omega arith) (omega arith)

abbrev number_read :
    Run (Bool × Socket × MessageQueue Message × List ℕ) → Option (Bool × ℕ × List ℕ)
number_read (ret (b, s, q, w)) = some (b, q.write_number, w)
number_read abort = none
number_read fault = none
number_read stuck = none

-- One message reaches the queue.
poll_read_run :
    number_read (poll_read recv 64 60 80 two_messages fresh_socket empty_queue) ≡ some (true, 1, [])
unfolding poll_read slam.Message.Cells.word slam.Message.Cells.store slam.Message.new
poll_read_run = refl
