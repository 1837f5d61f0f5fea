-- ===== src/Socket/Descriptor.antt =====
-- src/io/slam_socket.c: reading and writing keep the descriptor of a socket, and reading all but the
-- message begun.
use slam.Base.{
  ℕ, zero, suc, ◌+◌, ◌-◌, ◌≡◌, refl, ◌∙◌, ap, Bool, none, some, List, Run, replicate, ltb, leb,
  ◌==◌, arith, Ensures, Ensures-bind, Ensures-assert, Ensures-if, Ensures-map, Ensures-any,
  Ensures-option, Ensures-test, Ensures-ret, Ensures-stuck, Ensures-fault,
}
use slam.Message.Cells.{Cell}
use slam.Message.{Message}
use slam.MessageQueue.{MessageQueue, push_back, is_empty, front}
use slam.Socket.{Socket, Next, poll_read, prepare, advance, read_bytes, start}
use slam.Socket.Kernel.{Recv}
use slam.Socket.Sending.{Send, poll_write, count_sent, unsent}

Ensures-next {κ μ} :
    {B : Type κ} (P : B → Type μ) (next : Next) (f : Bool → Run B) (m : Run B)
    → ((b : Bool) → Ensures P (f b))
    → Ensures P m
    → Ensures P (elim next [ Next.leave b ↦ f b | Next.go_on ↦ m ])
Ensures-next P Next.go_on f m h k = k
Ensures-next P (Next.leave b) f m h k = h b

-- all of a socket but the message begun
abbrev pub rest : Socket → Socket
rest s = record s { readmessage = none }

-- `slam_socket_poll_read` keeps all but that.
module _ {W : Type 0} (recv : W → ℕ → ℕ → Recv × W) (max_package_size : ℕ) where
  SameRest : Socket → Next × Socket × W → Type 0
  SameRest s (next, s', w') = rest s' ≡ rest s

  start_keeps_rest :
      (s : Socket) (n : ℕ) (len : List Cell) → rest (start max_package_size s n len).1 ≡ rest s
  unfolding start
  start_keeps_rest s n len = ground arith

  prepare_keeps_rest :
      (size : ℕ) (w : W) (s : Socket)
      → Ensures (SameRest s) (prepare recv max_package_size size w s)
  unfolding prepare SameRest
  prepare_keeps_rest size w s =
      Ensures-option (SameRest s) s.readmessage _ _
        (λ e.
          Ensures-bind (SameRest s) (read_bytes recv size w s.fd (replicate 4 (some 0)) 0 4 0) _ (
            Ensures-any _ _ (λ (r, len, w').
              Ensures-option (SameRest s) r _ _ (λ e'. Ensures-ret _ _ refl)
                (λ n e'. Ensures-ret _ _ (start_keeps_rest s n len)))))
        (λ m e. Ensures-ret _ _ refl)

  AdvancesRest : Socket → Next × Socket × MessageQueue Message × W → Type 0
  AdvancesRest s (next, s', q, w') = rest s' ≡ rest s

  advance_keeps_rest :
      (size : ℕ) (w : W) (s : Socket) (q : MessageQueue Message)
      → Ensures (AdvancesRest s) (advance recv max_package_size size w s q)
  unfolding advance AdvancesRest
  advance_keeps_rest size w s q =
      Ensures-option (AdvancesRest s) s.readmessage _ _ (λ e. Ensures-fault _)
        (λ m e. Ensures-assert (AdvancesRest s) (leb m.bytesize m.bufsize) _ (λ h.
          Ensures-test (AdvancesRest s) (m.bytesize == m.bufsize) _ _
            (λ all.
              Ensures-bind (AdvancesRest s) (push_back q m) _
                (Ensures-any _ _ (λ (pushed, q'). Ensures-ret _ _ (ground arith))))
            (λ more.
              Ensures-bind (AdvancesRest s)
                (read_bytes recv size w s.fd m.buf m.bytesize (m.bufsize - m.bytesize) 0) _
                (Ensures-any _ _ (λ (r, buf, w').
                  Ensures-option (AdvancesRest s) r _ _ (λ e'. Ensures-ret _ _ refl)
                    (λ n e'.
                      Ensures-if (AdvancesRest s) (n == 0) _ _ (λ z. Ensures-ret _ _ refl)
                        (λ z.
                          Ensures-assert (AdvancesRest s) (leb (m.bytesize + n) m.bufsize) _
                            (λ k. Ensures-ret _ _ refl))))))))

  unfoldable pub ReadsRest : Socket → Bool × Socket × MessageQueue Message × W → Type 0
  ReadsRest r (alive, s', q, w') = rest s' ≡ r

  pub poll_read_keeps_rest :
      (fuel size : ℕ) (r : Socket) (w : W) (s : Socket) (q : MessageQueue Message)
      → rest s ≡ r
      → Ensures (ReadsRest r) (poll_read recv max_package_size fuel size w s q)
  unfolding poll_read SameRest AdvancesRest ReadsRest
  poll_read_keeps_rest zero size r w s q e = Ensures-stuck _
  poll_read_keeps_rest (suc fuel) size r w s q e =
      Ensures-bind (ReadsRest r) (prepare recv max_package_size size w s) _ (
        Ensures-map (SameRest s) _ _
          (λ (next, s1, w1) e1.
            Ensures-next (ReadsRest r) next _ _ (λ b. Ensures-ret _ _ (e1 ∙ e))
              (Ensures-bind (ReadsRest r) (advance recv max_package_size size w1 s1 q) _ (
                Ensures-map (AdvancesRest s1) _ _
                  (λ (next', s2, q2, w2) e2.
                    Ensures-next (ReadsRest r) next' _ _ (λ b. Ensures-ret _ _ (e2 ∙ e1 ∙ e))
                      (poll_read_keeps_rest fuel size r w2 s2 q2 (e2 ∙ e1 ∙ e)))
                  (advance_keeps_rest size w1 s1 q))))
          (prepare_keeps_rest size w s))

  unfoldable pub ReadsFd : ℕ → Bool × Socket × MessageQueue Message × W → Type 0
  ReadsFd fd (alive, s', q, w') = s'.fd ≡ fd

  -- So it keeps the descriptor.
  pub poll_read_keeps_fd :
      (fuel size fd : ℕ) (w : W) (s : Socket) (q : MessageQueue Message)
      → s.fd ≡ fd
      → Ensures (ReadsFd fd) (poll_read recv max_package_size fuel size w s q)
  unfolding ReadsRest ReadsFd
  poll_read_keeps_fd fuel size fd w s q e =
      Ensures-map (ReadsRest (rest s)) _ _ (λ (alive, s', q', w') same. ap (λ s. s.fd) same ∙ e)
        (poll_read_keeps_rest fuel size (rest s) w s q refl)

Ensures-answer {κ μ} :
    {B : Type κ} (P : B → Type μ) (answer : Send) (f : ℕ → Run B) (l m n : Run B)
    → ((len : ℕ) → Ensures P (f len))
    → Ensures P l
    → Ensures P m
    → Ensures P n
    → Ensures P (elim answer [
      | Send.took len ↦ f len
      | Send.interrupted ↦ l
      | Send.would_block ↦ m
      | Send.failed ↦ n
    ])
Ensures-answer P (Send.took len) f l m n h i j k = h len
Ensures-answer P Send.interrupted f l m n h i j k = i
Ensures-answer P Send.would_block f l m n h i j k = j
Ensures-answer P Send.failed f l m n h i j k = k

module _ {W : Type 0} (send : W → ℕ → List Cell → Send × W) where
  unfoldable pub WritesFd : ℕ → Bool × Socket × W → Type 0
  WritesFd fd (alive, s', w') = s'.fd ≡ fd

  -- So does `slam_socket_poll_write`.
  pub poll_write_keeps_fd :
      (fuel fd : ℕ) (w : W) (s : Socket)
      → s.fd ≡ fd
      → Ensures (WritesFd fd) (poll_write send fuel w s)
  unfolding poll_write WritesFd
  poll_write_keeps_fd zero fd w s e = Ensures-stuck _
  poll_write_keeps_fd (suc fuel) fd w s e = Ensures-bind (WritesFd fd) (is_empty s.sendmq) _ (
      Ensures-any _ _ (λ done.
        Ensures-test (WritesFd fd) done _ _ (λ b. Ensures-ret _ _ e)
          (λ b. Ensures-bind (WritesFd fd) (front s.sendmq) _ (
            Ensures-any _ _ (λ first.
              Ensures-option (WritesFd fd) first _ _ (λ n. Ensures-fault _)
                (λ m f. Ensures-assert (WritesFd fd) (ltb m.bytesize m.bufsize) _ (λ l.
                  Ensures-answer (WritesFd fd) (send w s.fd (unsent send m)).0 _ _ _ _
                    (λ len.
                      Ensures-test (WritesFd fd) (len == 0) _ _ (λ z. Ensures-ret _ _ e)
                        (λ z. Ensures-bind (WritesFd fd) (count_sent s.sendmq m len) _ (
                          Ensures-any _ _
                            (λ mq. poll_write_keeps_fd fuel fd _ (record s { sendmq = mq }) e))))
                    (poll_write_keeps_fd fuel fd _ s e) (Ensures-ret _ _ e)
                    (Ensures-ret _ _ e))))))))
