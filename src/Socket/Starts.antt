-- ===== src/Socket/Starts.antt =====
-- The length of a message in `slam_socket_poll_read` of src/io/slam_socket.c: what the checks of it
-- decide.
use slam.Base.{
  ℕ, ◌≤◌, ◌<◌, ◌≡◌, refl, sym, ◌∙◌, ap, ◌⊎◌, inl, inr, Bool, true, false, none, some, List, [], ◌∷◌,
  map, length-map, length, take-all, replicate, arith, dec_lt,
}
use slam.Message
use slam.Message.{MessageType, package_min_size}
use slam.Message.Cells.{Cell, store, store-all, store-filled, word, filled}
use slam.Socket.Kernel.{Recv}
use slam.Socket.Reads.{Blocked}
use slam.Socket.Framing.{partial, says, IsOpen, Ending}
use slam.Socket.{Socket, Next, start}

module _ {W : Type 0} (recv : W → ℕ → ℕ → Recv × W) (max_package_size : ℕ) where
  -- What the loop does next: it goes on with a message begun, or returns with a reason.
  abbrev pub Goes : Next → Socket → ℕ → ℕ → List ℕ → W → Type 0
  Goes next socket maxsize held left w =
      ((next ≡ Next.go_on) × (len : ℕ) × IsOpen max_package_size socket len left)
      ⊎ ((b : Bool) × (next ≡ Next.leave b)
          × Ending recv max_package_size socket maxsize held left w b)

  abbrev pub Starts : Socket → ℕ → ℕ → List ℕ → W → Type 0
  Starts socket maxsize held cs w =
      (next : Next) × (socket' : Socket) × (start max_package_size socket (length cs)
          (store (replicate 4 (some 0)) 0 (map some cs))
        ≡ (next, socket'))
      × (socket'.fd ≡ socket.fd)
      × Goes next socket' maxsize held cs w

  start_good :
      (socket : Socket) (len : List Cell)
      → package_min_size ≤ word len
      → word len < max_package_size
      → start max_package_size socket 4 len ≡ (
        Next.go_on,
        record socket {
          readmessage = some (record {
            fd = socket.fd;
            kind = MessageType.protobuf_package;
            bufsize = word len;
            bytesize = 4;
            buf = store (replicate (word len) none) 0 len;
          });
        },
      )
  unfolding start Message.new
  start_good socket len low high = ground arith

  started :
      (socket : Socket) (cs : List ℕ)
      → length cs ≡ 4
      → package_min_size ≤ says cs
      → says cs < max_package_size
      → start max_package_size socket (length cs) (store (replicate 4 (some 0)) 0 (map some cs))
        ≡ (Next.go_on, record socket { readmessage = some (partial socket.fd (says cs) cs) })
  unfolding filled
  started socket cs e low high =
      let cells : store (replicate 4 (some 0)) 0 (map some cs) ≡ map some cs =
        store-all (replicate 4 (some 0)) (map some cs) (sym (length-map some cs ∙ e)) in
      let whole : says cs ≡ word (map some cs) =
        ap (λ l. word (map some l)) (take-all 4 cs (omega arith)) in
      rw (cells, e, start_good socket (map some cs) (omega arith) (omega arith))
        (ap (λ k. begin_with k 4 (store (replicate k none) 0 (map some cs))) (sym whole)
          ∙ ap (begin_with (says cs) 4) (store-filled (says cs) [] cs (omega arith)))
    where
      begin_with : ℕ → ℕ → List Cell → Next × Socket
      begin_with k n b = (
        Next.go_on,
        record socket {
          readmessage = some (record {
            fd = socket.fd;
            kind = MessageType.protobuf_package;
            bufsize = k;
            bytesize = n;
            buf = b;
          });
        },
      )

  length_whole :
      (socket : Socket) (maxsize held : ℕ) (cs : List ℕ) (w : W)
      → length cs ≡ 4
      → Starts socket maxsize held cs w
  unfolding start Message.new
  length_whole socket maxsize held cs w e =
      let cells : store (replicate 4 (some 0)) 0 (map some cs) ≡ map some cs =
        store-all (replicate 4 (some 0)) (map some cs) (sym (length-map some cs ∙ e)) in
      let whole : says cs ≡ word (map some cs) =
        ap (λ l. word (map some l)) (take-all 4 cs (omega arith)) in
      elim (dec_lt (says cs) package_min_size) [
        | yes small ↦ (
          Next.leave false,
          socket,
          rw cells (ground (arith, whole, e)),
          refl,
          inr (false, refl, Ending.bad_length e (inl small)),
        )
        | no low ↦ elim (dec_lt (says cs) max_package_size) [
          | no large ↦ (
            Next.leave false,
            socket,
            rw cells (ground (arith, whole, e)),
            refl,
            inr (false, refl, Ending.bad_length e (inr (omega arith))),
          )
          | yes high ↦ (
            Next.go_on,
            record socket { readmessage = some (partial socket.fd (says cs) cs) },
            started socket cs e (omega arith) high,
            refl,
            inl (
              refl,
              says cs,
              record {
                begun = refl;
                starts = omega arith;
                fits = omega arith;
                low = omega arith;
                high = high;
                length_says = refl;
              },
            ),
          )
        ]
      ]

  pub start_lem :
      (socket : Socket) (maxsize held : ℕ) (cs : List ℕ) (w : W)
      → socket.readmessage ≡ none
      → length cs ≤ 4
      → (length cs ≡ 4) ⊎ Blocked recv socket.fd w
      → Starts socket maxsize held cs w
  unfolding start
  start_lem socket maxsize held cs w empty h (inl e) = length_whole socket maxsize held cs w e
  start_lem socket maxsize held [] w empty h (inr b) = (
    Next.leave true,
    socket,
    ground arith,
    refl,
    inr (true, refl, Ending.no_more_data (inl (empty, refl)) b),
  )
  start_lem socket maxsize held (c ∷ cs) w empty h (inr b) = elim (dec_lt (length (c ∷ cs)) 4) [
    | yes short ↦ (
      Next.leave false,
      socket,
      ground arith,
      refl,
      inr (false, refl, Ending.short_length (omega arith) short b),
    )
    | no all ↦ length_whole socket maxsize held (c ∷ cs) w (omega arith)
  ]
