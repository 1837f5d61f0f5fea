-- ===== src/Socket/Advance.antt =====
-- The second half of a round of `slam_socket_poll_read` of src/io/slam_socket.c: it hands a complete
-- message to the queue, or reads more of it.
use slam.Base.{
  ℕ, suc, ◌+◌, ◌-◌, ◌≤◌, ◌<◌, ◌≡◌, refl, sym, ◌∙◌, ap, subst, inl, inr, true, false, Option, none,
  some, List, [], ◌∷◌, ◌++◌, map, append-nil, append_assoc, ret, length, length-append, take-append,
  arith, add-zero, dec_lt,
}
use slam.Message.{Message}
use slam.Message.Cells.{store, store-filled, word, filled}
use slam.MessageQueue.{MessageQueue}
use slam.MessageQueue.Bounds.{Holds}
use slam.MessageQueue.Refine.{written, written-Holds, push_full, push_room}
use slam.Socket.Kernel.{Recv, IsStream}
use slam.Socket.Reads.{Stop, DidRead, read_bytes_lem}
use slam.Socket.Framing.{partial, frame, IsFrame, IsOpen, Ending}
use slam.Socket.Prepare.{length_split}
use slam.Socket.{Socket, Next, read_bytes}
use slam.Socket.Steps.{Advances, complete, incomplete_lost, incomplete_none, incomplete_some}

module _ {W : Type 0} (recv : W → ℕ → ℕ → Recv × W) (max_package_size : ℕ) where
  abbrev grown : Socket → ℕ → List ℕ → Socket
  grown socket len bs = record socket { readmessage = some (partial socket.fd len bs) }

  grown-IsOpen :
      (socket : Socket) (len : ℕ) (bs cs : List ℕ)
      → IsOpen max_package_size socket len bs
      → length bs + length cs ≤ len
      → IsOpen max_package_size (grown socket len (bs ++ cs)) len (bs ++ cs)
  grown-IsOpen socket len bs cs o h = record {
    begun = refl;
    starts = omega (arith, o.starts, length-append bs cs);
    fits = omega (arith, length-append bs cs);
    low = o.low;
    high = o.high;
    length_says = ap (λ l. word (map some l)) (take-append 4 bs cs o.starts) ∙ o.length_says;
  }

  regrown-IsOpen :
      (socket : Socket) (len : ℕ) (bs : List ℕ)
      → IsOpen max_package_size socket len bs
      → IsOpen max_package_size (grown socket len bs) len bs
  regrown-IsOpen socket len bs o = record {
    begun = refl;
    starts = o.starts;
    fits = o.fits;
    low = o.low;
    high = o.high;
    length_says = o.length_says;
  }

  -- The queue and its messages stay as they are.
  stays :
      (fd : ℕ) (readmq : MessageQueue Message) (xs : List Message)
      → Holds readmq xs
      → Holds readmq (xs ++ map (frame fd) [])
  stays fd readmq xs v = subst (Holds readmq) (sym (append-nil xs)) v

  hand_on :
      (stream : IsStream recv) (size : ℕ) (w : W) (socket : Socket) (readmq : MessageQueue Message)
      (xs : List Message) (len : ℕ) (bs : List ℕ)
      → IsOpen max_package_size socket len bs
      → Holds readmq xs
      → length bs ≡ len
      → Advances recv max_package_size stream size w socket readmq xs bs
  hand_on stream size w socket readmq xs len bs o v e =
      let whole : partial socket.fd len bs ≡ frame socket.fd bs =
        ap (λ n. partial socket.fd n bs) (sym e) in
      let framed : IsFrame max_package_size bs =
        (omega (arith, o.low), omega (arith, o.high), o.length_says ∙ sym e) in
      elim (dec_lt (suc (length xs)) readmq.maxsize) [
        | yes room ↦ (
          Next.go_on,
          record socket { readmessage = none },
          written readmq (frame socket.fd bs),
          bs ∷ [],
          [],
          w,
          complete recv max_package_size size w socket readmq (frame socket.fd bs) true
              (written readmq (frame socket.fd bs)) (o.begun ∙ ap some whole) refl
              (push_room readmq xs (frame socket.fd bs) v room),
          record {
            same_fd = refl;
            same_size = refl;
            conserves = ap (λ l. l ++ stream.incoming w socket.fd) (sym (append-nil bs));
            patience = omega arith;
            frames = (framed, tt);
            holds = written-Holds readmq xs (frame socket.fd bs) v room;
            goes = inl (refl, inl (refl, refl), omega (arith, o.starts));
          },
        )
        | no full ↦ (
          Next.leave false,
          socket,
          readmq,
          [],
          bs,
          w,
          complete recv max_package_size size w socket readmq (frame socket.fd bs) false readmq
              (o.begun ∙ ap some whole) refl
              (push_full readmq xs (frame socket.fd bs) v (omega (arith, v.fits))),
          record {
            same_fd = refl;
            same_size = refl;
            conserves = refl;
            patience = omega arith;
            frames = tt;
            holds = stays socket.fd readmq xs v;
            goes = inr (
              false,
              refl,
              Ending.queue_full framed (omega (arith, v.fits, ap length (append-nil xs))),
            );
          },
        )
      ]

  -- What follows the reading of more of a message, however it stopped.
  read_on :
      (stream : IsStream recv) (size : ℕ) (w : W) (socket : Socket) (readmq : MessageQueue Message)
      (xs : List Message) (len : ℕ) (bs : List ℕ) (r : Option ℕ) (cs : List ℕ) (w' : W)
      → IsOpen max_package_size socket len bs
      → Holds readmq xs
      → length bs < len
      → read_bytes recv size w socket.fd (filled len bs) (length bs) (len - length bs) 0
        ≡ ret (r, filled len (bs ++ cs), w')
      → DidRead recv stream w socket.fd (len - length bs) 0 r cs w'
      → Stop recv socket.fd r (length cs) (len - length bs) w'
      → Advances recv max_package_size stream size w socket readmq xs bs
  read_on stream size w socket readmq xs len bs r cs w' o v more ran d (inr (lost, why)) = (
    Next.leave false,
    record socket {
      readmessage = some (record (partial socket.fd len bs) { buf = filled len (bs ++ cs) });
    },
    readmq,
    [],
    bs ++ cs,
    w',
    incomplete_lost recv max_package_size size w socket readmq (partial socket.fd len bs)
        (filled len (bs ++ cs)) w' o.begun more
        (ran ∙ ap (λ q. ret (q, filled len (bs ++ cs), w')) lost),
    record {
      same_fd = refl;
      same_size = refl;
      conserves = ap (λ l. bs ++ l) d.conserves ∙ sym (append_assoc bs cs _);
      patience = d.patience;
      frames = tt;
      holds = stays socket.fd readmq xs v;
      goes = inr (false, refl, Ending.connection_lost why);
    },
  )
  read_on stream size w socket readmq xs len bs r [] w' o v more ran d (inl (count, inl all)) =
      absurd (omega arith)
  read_on stream size w socket readmq xs len bs r [] w' o v more ran d (inl (count, inr why)) = (
    Next.leave true,
    grown socket len bs,
    readmq,
    [],
    bs,
    w',
    incomplete_none recv max_package_size size w socket readmq (partial socket.fd len bs)
        (filled len bs) w' o.begun more
        (ran
          ∙ ap (λ q. ret (q, filled len (bs ++ []), w')) count
          ∙ ap (λ l. ret (some 0, filled len l, w')) (append-nil bs)),
    record {
      same_fd = refl;
      same_size = refl;
      conserves = ap (λ l. bs ++ l) d.conserves;
      patience = d.patience;
      frames = tt;
      holds = stays socket.fd readmq xs v;
      goes = inr (true, refl, Ending.no_more_data (inr (len, regrown-IsOpen socket len bs o)) why);
    },
  )
  read_on stream size w socket readmq xs len bs r (c ∷ cs) w' o v more ran d (inl (count, why)) = (
    Next.go_on,
    grown socket len (bs ++ (c ∷ cs)),
    readmq,
    [],
    bs ++ (c ∷ cs),
    w',
    incomplete_some recv max_package_size size w socket readmq (partial socket.fd len bs)
          (length (c ∷ cs)) (filled len (bs ++ (c ∷ cs))) w' o.begun more
          (ran ∙ ap (λ q. ret (q, filled len (bs ++ (c ∷ cs)), w')) count) (omega arith)
          (omega (arith, d.within))
        ∙ ap
            (λ n. ret (
              Next.go_on,
              record socket {
                readmessage =
                    some (record (partial socket.fd len (bs ++ (c ∷ cs))) { bytesize = n });
              },
              readmq,
              w',
            ))
            (omega (arith, length-append bs (c ∷ cs))),
    record {
      same_fd = refl;
      same_size = refl;
      conserves = ap (λ l. bs ++ l) d.conserves ∙ sym (append_assoc bs (c ∷ cs) _);
      patience = d.patience;
      frames = tt;
      holds = stays socket.fd readmq xs v;
      goes = inl (
        refl,
        inr (len, grown-IsOpen socket len bs (c ∷ cs) o (omega (arith, d.within))),
        omega (
          arith,
          length_split recv max_package_size stream w socket.fd (c ∷ cs) w' d.conserves,
          length-append bs (c ∷ cs),
        ),
      );
    },
  )

  -- With fuel for each byte of a message and for each interruption.
  pub advance_lem :
      (stream : IsStream recv) (size : ℕ) (w : W) (socket : Socket) (readmq : MessageQueue Message)
      (xs : List Message) (len : ℕ) (bs : List ℕ)
      → IsOpen max_package_size socket len bs
      → Holds readmq xs
      → max_package_size + stream.signals w < size
      → Advances recv max_package_size stream size w socket readmq xs bs
  advance_lem stream size w socket readmq xs len bs o v f = elim (dec_lt (length bs) len) [
    | no all ↦ hand_on stream size w socket readmq xs len bs o v (omega (arith, o.fits))
    | yes more ↦
        let (r, cs, w', ran, d) =
          read_bytes_lem recv stream size w socket.fd (filled len bs) (length bs) (len - length bs)
            0 (omega arith) (omega (arith, o.high)) in
        let stored : store (filled len bs) (length bs + 0) (map some cs) ≡ filled len (bs ++ cs) =
          ap (λ i. store (filled len bs) i (map some cs)) (add-zero (length bs))
          ∙ store-filled len bs cs (omega (arith, d.within)) in
        read_on stream size w socket readmq xs len bs r cs w' o v more
          (ran ∙ ap (λ b. ret (r, b, w')) stored) d
          (subst (λ n. Stop recv socket.fd r n (len - length bs) w') (omega arith) d.stop)
  ]
