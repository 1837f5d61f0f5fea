-- ===== src/Socket/Polling.antt =====
-- `slam_socket_poll_read` of src/io/slam_socket.c against the stream of bytes: however the stream is
-- cut into the answers of `recv`, the messages handed on are the ones that it holds.
use slam.Base.{
  ℕ, zero, suc, ◌+◌, ◌*◌, ◌≤◌, ◌<◌, ◌≡◌, refl, sym, ◌∙◌, ap, subst, inl, inr, Bool, List, [], ◌∷◌,
  ◌++◌, map, map-append, append-nil, append_assoc, ret, length, arith,
}
use slam.Message.{Message}
use slam.MessageQueue.{MessageQueue}
use slam.MessageQueue.Bounds.{Holds}
use slam.Socket.Kernel.{Recv, IsStream}
use slam.Socket.Framing.{frame, AllFrames, join, Reading, Ending}
use slam.Socket.Prepare.{Prepared, prepare_lem}
use slam.Socket.Steps.{Advanced}
use slam.Socket.Advance.{advance_lem}
use slam.Socket.{Socket, Next, prepare, advance, poll_read}

module _ {W : Type 0} (recv : W → ℕ → ℕ → Recv × W) (max_package_size : ℕ) where
  -- From a queue of the messages `xs` and the bytes `pending` of a message begun: the whole messages
  -- `fs` are handed on in order, the bytes `left` are kept, and the loop ends for a reason.
  pub record Polled (stream : IsStream recv) (fd : ℕ) (readmq : MessageQueue Message)
      (xs : List Message) (w : W) (pending : List ℕ) (b : Bool) (socket' : Socket)
      (readmq' : MessageQueue Message) (fs : List (List ℕ)) (left : List ℕ) (w' : W) : Type 0 where
    pub conserves : pending ++ stream.incoming w fd ≡ join fs ++ (left ++ stream.incoming w' fd)
    pub frames : AllFrames max_package_size fs
    pub holds : Holds readmq' (xs ++ map (frame fd) fs)
    pub ending :
        Ending recv max_package_size socket' readmq.maxsize
          (length (xs ++ map (frame fd) fs))
          left
          w'
          b

  abbrev pub Polls :
      IsStream recv → ℕ → ℕ → ℕ → W → Socket → MessageQueue Message → List Message → List ℕ → Type 0
  Polls stream fuel size fd w socket readmq xs pending =
      (b : Bool) × (socket' : Socket) × (readmq' : MessageQueue Message) × (fs : List (List ℕ))
      × (left : List ℕ) × (w' : W) × (poll_read recv max_package_size fuel size w socket readmq
          ≡ ret (b, socket', readmq', w'))
      × Polled stream fd readmq xs w pending b socket' readmq' fs left w'

  left_early :
      (fuel size : ℕ) (w : W) (socket : Socket) (readmq : MessageQueue Message) (b : Bool)
      (socket' : Socket) (w' : W) (next : Next)
      → prepare recv max_package_size size w socket ≡ ret (next, socket', w')
      → next ≡ Next.leave b
      → poll_read recv max_package_size (suc fuel) size w socket readmq
        ≡ ret (b, socket', readmq, w')
  unfolding poll_read
  left_early fuel size w socket readmq b socket' w' next ran e = rw (ran, e) refl

  left_late :
      (fuel size : ℕ) (w : W) (socket : Socket) (readmq : MessageQueue Message) (b : Bool)
      (socket1 : Socket) (w1 : W) (next : Next) (socket2 : Socket) (readmq2 : MessageQueue Message)
      (w2 : W) (next2 : Next)
      → prepare recv max_package_size size w socket ≡ ret (next, socket1, w1)
      → next ≡ Next.go_on
      → advance recv max_package_size size w1 socket1 readmq ≡ ret (next2, socket2, readmq2, w2)
      → next2 ≡ Next.leave b
      → poll_read recv max_package_size (suc fuel) size w socket readmq
        ≡ ret (b, socket2, readmq2, w2)
  unfolding poll_read
  left_late fuel size w socket readmq b socket1 w1 next socket2 readmq2 w2 next2 ran e ran2 e2 =
      rw (ran, e, ran2, e2) refl

  went_round :
      (fuel size : ℕ) (w : W) (socket : Socket) (readmq : MessageQueue Message) (socket1 : Socket)
      (w1 : W) (next : Next) (socket2 : Socket) (readmq2 : MessageQueue Message) (w2 : W)
      (next2 : Next)
      → prepare recv max_package_size size w socket ≡ ret (next, socket1, w1)
      → next ≡ Next.go_on
      → advance recv max_package_size size w1 socket1 readmq ≡ ret (next2, socket2, readmq2, w2)
      → next2 ≡ Next.go_on
      → poll_read recv max_package_size (suc fuel) size w socket readmq
        ≡ poll_read recv max_package_size fuel size w2 socket2 readmq2
  unfolding poll_read
  went_round fuel size w socket readmq socket1 w1 next socket2 readmq2 w2 next2 ran e ran2 e2 =
      rw (ran, e, ran2, e2) refl

  join-append : (fs gs : List (List ℕ)) → join (fs ++ gs) ≡ join fs ++ join gs
  join-append [] gs = refl
  join-append (bs ∷ fs) gs =
      ap (λ l. bs ++ l) (join-append fs gs) ∙ sym (append_assoc bs (join fs) (join gs))

  AllFrames-append :
      (fs gs : List (List ℕ))
      → AllFrames max_package_size fs
      → AllFrames max_package_size gs
      → AllFrames max_package_size (fs ++ gs)
  AllFrames-append [] gs a b = b
  AllFrames-append (bs ∷ fs) gs a b = (a.0, AllFrames-append fs gs a.1 b)

  -- One round, and what the rounds after it do.
  round_then :
      (stream : IsStream recv) (fd : ℕ) (readmq : MessageQueue Message) (xs : List Message)
      (w w1 : W) (pending left1 : List ℕ) (next : Next) (socket2 : Socket)
      (readmq2 : MessageQueue Message) (fs : List (List ℕ)) (left2 : List ℕ) (w2 : W) (b : Bool)
      (socket' : Socket) (readmq' : MessageQueue Message) (gs : List (List ℕ)) (left : List ℕ)
      (w' : W)
      → pending ++ stream.incoming w fd ≡ left1 ++ stream.incoming w1 fd
      → Advanced recv max_package_size stream fd readmq xs w1 left1 next socket2 readmq2 fs left2 w2
      → Polled stream fd readmq2 (xs ++ map (frame fd) fs) w2 left2 b socket' readmq' gs left w'
      → Polled stream fd readmq xs w pending b socket' readmq' (fs ++ gs) left w'
  round_then stream fd readmq xs w w1 pending left1 next socket2 readmq2 fs left2 w2 b socket'
        readmq' gs left w' c a p =
      let messages : (xs ++ map (frame fd) fs) ++ map (frame fd) gs
          ≡ xs ++ map (frame fd) (fs ++ gs) =
        append_assoc xs (map (frame fd) fs) (map (frame fd) gs)
        ∙ ap (λ l. xs ++ l) (sym (map-append (frame fd) fs gs)) in
      record {
        conserves =
            c
            ∙ a.conserves
            ∙ ap (λ l. join fs ++ l) p.conserves
            ∙ sym (append_assoc (join fs) (join gs) (left ++ stream.incoming w' fd))
            ∙ ap (λ l. l ++ (left ++ stream.incoming w' fd)) (sym (join-append fs gs));
        frames = AllFrames-append fs gs a.frames p.frames;
        holds = subst (Holds readmq') messages p.holds;
        ending =
            subst
              (λ n.
                Ending recv max_package_size socket' n (length (xs ++ map (frame fd) (fs ++ gs)))
                  left w' b)
              a.same_size
              (subst
                (λ l. Ending recv max_package_size socket' readmq2.maxsize (length l) left w' b)
                messages p.ending);
      }

  -- What follows the second half of a round, given what the rounds after it do.
  after_advance :
      (stream : IsStream recv) (fuel size fd : ℕ) (w w1 w2 : W) (socket s1 s2 : Socket)
      (readmq q2 : MessageQueue Message) (xs : List Message) (pending left1 left2 : List ℕ)
      (next1 next2 : Next) (fs : List (List ℕ))
      → pending ++ stream.incoming w fd ≡ left1 ++ stream.incoming w1 fd
      → prepare recv max_package_size size w socket ≡ ret (next1, s1, w1)
      → next1 ≡ Next.go_on
      → advance recv max_package_size size w1 s1 readmq ≡ ret (next2, s2, q2, w2)
      → Advanced recv max_package_size stream fd readmq xs w1 left1 next2 s2 q2 fs left2 w2
      → (Reading max_package_size s2 left2
          → 2 * length (stream.incoming w2 fd) + length left2
            < 2 * length (stream.incoming w1 fd) + length left1
          → Polls stream fuel size fd w2 s2 q2 (xs ++ map (frame fd) fs) left2)
      → Polls stream (suc fuel) size fd w socket readmq xs pending
  after_advance stream fuel size fd w w1 w2 socket s1 s2 readmq q2 xs pending left1 left2 next1
        next2 fs c ran1 e1 ran2 a later =
      elim a.goes [
        | inr (b, e2, ending) ↦ (
          b,
          s2,
          q2,
          fs,
          left2,
          w2,
          left_late fuel size w socket readmq b s1 w1 next1 s2 q2 w2 next2 ran1 e1 ran2 e2,
          record {
            conserves = c ∙ a.conserves;
            frames = a.frames;
            holds = a.holds;
            ending = ending;
          },
        )
        | inl (e2, reading, less) ↦
            let (b, s', q', gs, left, w', ran, rest) = later reading less in
            (
              b,
              s',
              q',
              fs ++ gs,
              left,
              w',
              went_round fuel size w socket readmq s1 w1 next1 s2 q2 w2 next2 ran1 e1 ran2 e2 ∙ ran,
              round_then stream fd readmq xs w w1 pending left1 next2 s2 q2 fs left2 w2 b s' q' gs
                  left w' c a rest,
            )
      ]

  -- What follows the first half of a round, given what the rounds after it do.
  after_prepare :
      (stream : IsStream recv) (fuel size fd : ℕ) (w w1 : W) (socket s1 : Socket)
      (readmq : MessageQueue Message) (xs : List Message) (pending left1 : List ℕ) (next1 : Next)
      → Holds readmq xs
      → max_package_size + stream.signals w + 4 < size
      → prepare recv max_package_size size w socket ≡ ret (next1, s1, w1)
      → Prepared recv max_package_size stream fd readmq.maxsize
          (length (xs ++ map (frame fd) []))
          w
          pending
          next1
          s1
          left1
          w1
      → ((s2 : Socket) (q2 : MessageQueue Message) (ys : List Message) (left2 : List ℕ) (w2 : W)
          → s2.fd ≡ fd
          → Reading max_package_size s2 left2
          → Holds q2 ys
          → stream.signals w2 ≤ stream.signals w
          → 2 * length (stream.incoming w2 fd) + length left2
            < 2 * length (stream.incoming w fd) + length pending
          → Polls stream fuel size fd w2 s2 q2 ys left2)
      → Polls stream (suc fuel) size fd w socket readmq xs pending
  after_prepare stream fuel size fd w w1 socket s1 readmq xs pending left1 next1 v g ran1 p later =
      elim p.goes [
        | inr (b, e1, ending) ↦ (
          b,
          s1,
          readmq,
          [],
          left1,
          w1,
          left_early fuel size w socket readmq b s1 w1 next1 ran1 e1,
          record {
            conserves = p.conserves;
            frames = tt;
            holds = subst (Holds readmq) (sym (append-nil xs)) v;
            ending = ending;
          },
        )
        | inl (e1, len, o) ↦
            let (next2, s2, q2, fs, left2, w2, ran2, a0) =
              advance_lem recv max_package_size stream size w1 s1 readmq xs len left1 o v
                (omega (arith, p.patience)) in
            let a : Advanced recv max_package_size stream fd readmq xs w1 left1 next2 s2 q2 fs left2
                w2 =
              subst
                (λ k.
                  Advanced recv max_package_size stream k readmq xs w1 left1 next2 s2 q2 fs left2
                    w2)
                p.same_fd a0 in
            after_advance stream fuel size fd w w1 w2 socket s1 s2 readmq q2 xs pending left1 left2
              next1 next2 fs p.conserves ran1 e1 ran2 a
              (λ reading less.
                later s2 q2 (xs ++ map (frame fd) fs) left2 w2 a.same_fd reading a.holds
                  (omega (arith, p.patience, a.patience)) (omega (arith, less, p.sooner)))
      ]

  -- For a `recv` that gives the bytes of a stream, with fuel for each byte still to come or kept and
  -- for each interruption, `slam_socket_poll_read` returns. Nothing of the stream is lost: what was
  -- kept and what `recv` gave are the bytes of the messages handed on, in order, and those that are
  -- left over. Each message handed on is whole, of a valid length, and the one that its first 4 bytes
  -- say. The loop returns true only when there is no more data for now, with the bytes left over kept
  -- for the next call, and false only when the connection is lost, the length is cut short or not
  -- valid, or the queue is full.
  pub poll_read_lem :
      (stream : IsStream recv) (fuel size fd : ℕ) (w : W) (socket : Socket)
      (readmq : MessageQueue Message) (xs : List Message) (pending : List ℕ)
      → socket.fd ≡ fd
      → Reading max_package_size socket pending
      → Holds readmq xs
      → 2 * length (stream.incoming w fd) + length pending < fuel
      → max_package_size + stream.signals w + 4 < size
      → Polls stream fuel size fd w socket readmq xs pending
  poll_read_lem stream zero size fd w socket readmq xs pending e reading v f g =
      absurd (omega arith)
  poll_read_lem stream (suc fuel) size fd w socket readmq xs pending e reading v f g =
      let (next1, s1, left1, w1, ran1, p) =
        prepare_lem recv max_package_size stream size w socket readmq.maxsize
          (length (xs ++ map (frame fd) [])) pending reading (omega arith) in
      after_prepare stream fuel size fd w w1 socket s1 readmq xs pending left1 next1 v g ran1
        (subst
          (λ k.
            Prepared recv max_package_size stream k readmq.maxsize
              (length (xs ++ map (frame fd) [])) w pending next1 s1 left1 w1)
          e p)
        (λ s2 q2 ys left2 w2 same reading2 v2 patient less.
          poll_read_lem stream fuel size fd w2 s2 q2 ys left2 same reading2 v2 (omega (arith, less))
            (omega (arith, patient)))
