-- ===== src/IoThread/Interface.antt =====
-- What src/io/slam_io_thread.c offers to the other threads: new servers and clients, closing a socket
-- and sending a message.
use slam.Base.{
  ℕ, ℤ, pos, negsuc, minus_one, Bool, true, false, none, some, Run, ret, ◌>>=◌, if◌then◌else◌,
}
use slam.Message.{Message}
use slam.Socket.{write_message}
use slam.Socket.Opening
use slam.System.{System}
use slam.Poll
use slam.IoThread.{IoThread, Setup, valid_socket, add_socket, set_socket}

abbrev pub invalid_socket : ℤ
invalid_socket = minus_one

-- the macro `slam_shutdown`
abbrev pub shutdown_socket : {W A : Type 0} → System W A → W → ℤ → W
shutdown_socket sys w (pos fd) = sys.shutdown w fd
shutdown_socket sys w (negsuc n) = w

module _ {W A : Type 0} (sys : System W A) (setup : Setup) where
  -- `slam_io_newserver`
  unfoldable pub newserver : W → IoThread → A → ℤ → Run (ℤ × IoThread × W)
  unfolding Opening.new Opening.bind Opening.delete add_socket
  newserver w io address port = Opening.new sys setup.socket_send_queue_size w >>= λ (opened, w1).
      Opening.bind sys w1 opened address port >>= λ (bound, socket, w2). elim bound [
        | false ↦ Opening.delete sys w2 socket >>= λ w3. ret (invalid_socket, io, w3)
        | true ↦ add_socket sys setup w2 io socket >>= λ (added, io', w3). elim added [
          | false ↦ Opening.delete sys w3 socket >>= λ w4. ret (invalid_socket, io', w4)
          | true ↦ ret (pos socket.fd, io', w3)
        ]
      ]

  -- `slam_io_newclient`
  unfoldable pub newclient : W → IoThread → A → ℤ → ℕ → Run (ℤ × IoThread × W)
  unfolding Opening.new Opening.connect Opening.delete add_socket
  newclient w io address port timeout =
      Opening.new sys setup.socket_send_queue_size w >>= λ (opened, w1).
      Opening.connect sys w1 opened address port timeout >>= λ (connected, socket, w2).
      elim connected [
        | false ↦ Opening.delete sys w2 socket >>= λ w3. ret (invalid_socket, io, w3)
        | true ↦ add_socket sys setup w2 io socket >>= λ (added, io', w3). elim added [
          | false ↦ Opening.delete sys w3 socket >>= λ w4. ret (invalid_socket, io', w4)
          | true ↦ ret (pos socket.fd, io', w3)
        ]
      ]

  -- `slam_io_closesocket`
  unfoldable pub closesocket : W → IoThread → ℤ → W
  closesocket w io fd = shutdown_socket sys w fd

  -- `slam_io_response`; `io->sockets[fd]` is the socket that the code changes.
  unfoldable pub response : W → IoThread → Message → Run (Bool × IoThread × W)
  unfolding write_message Poll.set_socket_pollout
  response w io message =
      if valid_socket message.fd
      then elim (io.sockets message.fd) [
        | none ↦ ret (false, io, w)
        | some socket ↦
            write_message socket (record message { bytesize = 0 }) >>= λ (written, socket').
            let io' = set_socket io message.fd (some socket') in
            if written
            then (let (changed, w') = Poll.set_socket_pollout sys w io.poll message.fd true in
                ret (changed, io', w'))
            else ret (false, io', w)
      ]
      else ret (false, io, w)
