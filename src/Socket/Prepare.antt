-- ===== src/Socket/Prepare.antt =====
-- The first half of a round of `slam_socket_poll_read` of src/io/slam_socket.c: it leaves with a
-- reason or goes on with a message begun.
use slam.Base.{
  Option, ℕ, ◌+◌, ◌*◌, ◌≤◌, ◌<◌, ◌≡◌, refl, sym, ◌∙◌, ap, subst, inl, inr, false, none, some, List,
  [], ◌++◌, map, ret, length, length-append, replicate, arith,
}
use slam.Message.{Message}
use slam.Message.Cells.{Cell, store}
use slam.Socket.Kernel.{Recv, IsStream}
use slam.Socket.Reads.{Stop, read_bytes_lem, DidRead}
use slam.Socket.Framing.{Reading, Ending}
use slam.Socket.Starts.{Goes, start_lem}
use slam.Socket.{Socket, Next, read_bytes, start, prepare}

module _ {W : Type 0} (recv : W → ℕ → ℕ → Recv × W) (max_package_size : ℕ) where
  pub record Prepared (stream : IsStream recv) (fd : ℕ) (maxsize held : ℕ) (w : W)
      (pending : List ℕ) (next : Next) (socket' : Socket) (left : List ℕ) (w' : W) : Type 0 where
    pub same_fd : socket'.fd ≡ fd
    pub conserves : pending ++ stream.incoming w fd ≡ left ++ stream.incoming w' fd
    pub patience : stream.signals w' ≤ stream.signals w
    pub sooner :
        2 * length (stream.incoming w' fd) + length left
        ≤ 2 * length (stream.incoming w fd) + length pending
    pub goes : Goes recv max_package_size next socket' maxsize held left w'

  has_message :
      (size : ℕ) (w : W) (socket : Socket) (m : Message)
      → socket.readmessage ≡ some m
      → prepare recv max_package_size size w socket ≡ ret (Next.go_on, socket, w)
  unfolding prepare
  has_message size w socket m e = rw e refl

  read_length :
      (size : ℕ) (w : W) (socket : Socket) (n : ℕ) (len : List Cell) (w' : W) (next : Next)
      (socket' : Socket)
      → socket.readmessage ≡ none
      → read_bytes recv size w socket.fd (replicate 4 (some 0)) 0 4 0 ≡ ret (some n, len, w')
      → start max_package_size socket n len ≡ (next, socket')
      → prepare recv max_package_size size w socket ≡ ret (next, socket', w')
  unfolding prepare
  read_length size w socket n len w' next socket' e ran s = ground (arith, e, ran, s)

  read_error :
      (size : ℕ) (w : W) (socket : Socket) (len : List Cell) (w' : W)
      → socket.readmessage ≡ none
      → read_bytes recv size w socket.fd (replicate 4 (some 0)) 0 4 0 ≡ ret (none, len, w')
      → prepare recv max_package_size size w socket ≡ ret (Next.leave false, socket, w')
  unfolding prepare
  read_error size w socket len w' e ran = rw (e, ran) refl

  abbrev Prepares : IsStream recv → ℕ → W → Socket → ℕ → ℕ → List ℕ → Type 0
  Prepares stream size w socket maxsize held pending =
      (next : Next) × (socket' : Socket) × (left : List ℕ) × (w' : W) × (prepare recv
          max_package_size size w socket
        ≡ ret (next, socket', w'))
      × Prepared stream socket.fd maxsize held w pending next socket' left w'

  pub length_split :
      (stream : IsStream recv) (w : W) (fd : ℕ) (cs : List ℕ) (w' : W)
      → stream.incoming w fd ≡ cs ++ stream.incoming w' fd
      → length (stream.incoming w fd) ≡ length cs + length (stream.incoming w' fd)
  length_split stream w fd cs w' e = ap length e ∙ length-append cs (stream.incoming w' fd)

  -- What follows the reading of a length, however it stopped.
  after_length :
      (stream : IsStream recv) (size : ℕ) (w : W) (socket : Socket) (maxsize held : ℕ)
      (r : Option ℕ) (cs : List ℕ) (w' : W)
      → socket.readmessage ≡ none
      → read_bytes recv size w socket.fd (replicate 4 (some 0)) 0 4 0
        ≡ ret (r, store (replicate 4 (some 0)) 0 (map some cs), w')
      → DidRead recv stream w socket.fd 4 0 r cs w'
      → Stop recv socket.fd r (length cs) 4 w'
      → Prepares stream size w socket maxsize held []
  after_length stream size w socket maxsize held r cs w' empty ran d (inr (lost, why)) = (
    Next.leave false,
    socket,
    cs,
    w',
    read_error size w socket (store (replicate 4 (some 0)) 0 (map some cs)) w' empty
        (ran ∙ ap (λ q. ret (q, store (replicate 4 (some 0)) 0 (map some cs), w')) lost),
    record {
      same_fd = refl;
      conserves = d.conserves;
      patience = d.patience;
      sooner = omega (arith, length_split stream w socket.fd cs w' d.conserves);
      goes = inr (false, refl, Ending.connection_lost why);
    },
  )
  after_length stream size w socket maxsize held r cs w' empty ran d (inl (count, why)) =
      let (next, socket', began, same, goes) =
        start_lem recv max_package_size socket maxsize held cs w' empty (omega (arith, d.within))
          why in
      (
        next,
        socket',
        cs,
        w',
        read_length size w socket (length cs) (store (replicate 4 (some 0)) 0 (map some cs)) w' next
            socket' empty
            (ran ∙ ap (λ q. ret (q, store (replicate 4 (some 0)) 0 (map some cs), w')) count) began,
        record {
          same_fd = same;
          conserves = d.conserves;
          patience = d.patience;
          sooner = omega (arith, length_split stream w socket.fd cs w' d.conserves);
          goes = goes;
        },
      )

  without_message :
      (stream : IsStream recv) (size : ℕ) (w : W) (socket : Socket) (maxsize held : ℕ)
      → socket.readmessage ≡ none
      → 4 + stream.signals w < size
      → Prepares stream size w socket maxsize held []
  without_message stream size w socket maxsize held empty f =
      let (r, cs, w', ran, d) =
        read_bytes_lem recv stream size w socket.fd (replicate 4 (some 0)) 0 4 0 (omega arith)
          (omega arith) in
      after_length stream size w socket maxsize held r cs w' empty ran d
        (subst (λ n. Stop recv socket.fd r n 4 w') (omega arith) d.stop)

  -- With fuel for the 4 bytes of the length and for each interruption.
  pub prepare_lem :
      (stream : IsStream recv) (size : ℕ) (w : W) (socket : Socket) (maxsize held : ℕ)
      (pending : List ℕ)
      → Reading max_package_size socket pending
      → 4 + stream.signals w < size
      → Prepares stream size w socket maxsize held pending
  prepare_lem stream size w socket maxsize held pending (inl (empty, e)) f =
      subst (Prepares stream size w socket maxsize held) (sym e)
        (without_message stream size w socket maxsize held empty f)
  prepare_lem stream size w socket maxsize held pending (inr (len, o)) f = (
    Next.go_on,
    socket,
    pending,
    w,
    has_message size w socket _ o.begun,
    record {
      same_fd = refl;
      conserves = refl;
      patience = omega arith;
      sooner = omega arith;
      goes = inl (refl, len, o);
    },
  )
