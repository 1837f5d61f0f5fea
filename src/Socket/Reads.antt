-- ===== src/Socket/Reads.antt =====
-- `slam_socket_read_bytes` of src/io/slam_socket.c: it stores what it takes from the stream, and
-- stops when it has all that was asked for, when there is no more for now, or when the connection is
-- lost.
use slam.Base.{
  ℕ, zero, suc, ◌+◌, ◌-◌, ◌≤◌, ◌<◌, ◌≡◌, refl, sym, ◌∙◌, ap, subst, ◌⊎◌, inl, inr, Option, none,
  some, List, [], ◌∷◌, ◌++◌, map, length-map, map-append, append_assoc, ret, length, length-append,
  arith, dec_lt,
}
use slam.Message.Cells.{Cell, store, store-nil, store-append}
use slam.Socket.Kernel.{Recv, IsStream, given, interruptions}
use slam.Socket.{read_bytes}

module _ {W : Type 0} (recv : W → ℕ → ℕ → Recv × W) where
  -- The last answer of the kernel was that there is nothing to read for now.
  abbrev pub Blocked : ℕ → W → Type 0
  Blocked fd w' = (v : W) × (size : ℕ) × (recv v fd size ≡ (Recv.would_block, w'))

  -- The last answer of the kernel was that the connection is closed or has failed.
  abbrev pub Lost : ℕ → W → Type 0
  Lost fd w' =
      (v : W) × (size : ℕ) × ((recv v fd size ≡ (Recv.closed, w'))
        ⊎ (recv v fd size ≡ (Recv.failed, w')))

  abbrev pub Stop : ℕ → Option ℕ → ℕ → ℕ → W → Type 0
  Stop fd r n bufsize w' =
      ((r ≡ some n) × ((n ≡ bufsize) ⊎ Blocked fd w')) ⊎ ((r ≡ none) × Lost fd w')

  pub record DidRead (stream : IsStream recv) (w : W) (fd bufsize readbytes : ℕ) (r : Option ℕ)
      (cs : List ℕ) (w' : W) : Type 0 where
    pub conserves : stream.incoming w fd ≡ cs ++ stream.incoming w' fd
    pub within : readbytes + length cs ≤ bufsize
    pub patience : stream.signals w' ≤ stream.signals w
    pub stop : Stop fd r (readbytes + length cs) bufsize w'

  abbrev Reads : IsStream recv → ℕ → W → ℕ → List Cell → ℕ → ℕ → ℕ → Type 0
  Reads stream fuel w fd buf offset bufsize readbytes =
      (r : Option ℕ) × (cs : List ℕ) × (w' : W) × (read_bytes recv fuel w fd buf offset bufsize
          readbytes
        ≡ ret (r, store buf (offset + readbytes) (map some cs), w'))
      × DidRead stream w fd bufsize readbytes r cs w'

  got_bytes :
      (fuel : ℕ) (w : W) (fd : ℕ) (buf : List Cell) (offset bufsize readbytes b : ℕ) (bs : List ℕ)
      (w' : W) (r : Option ℕ) (cs : List ℕ) (w'' : W)
      → recv w fd (bufsize - readbytes) ≡ (Recv.got b bs, w')
      → readbytes < bufsize
      → read_bytes recv fuel w' fd
          (store buf (offset + readbytes) (map some (b ∷ bs)))
          offset
          bufsize
          (readbytes + length (b ∷ bs))
        ≡ ret (
          r,
          store
              (store buf (offset + readbytes) (map some (b ∷ bs)))
              (offset + (readbytes + length (b ∷ bs)))
              (map some cs),
          w'',
        )
      → read_bytes recv (suc fuel) w fd buf offset bufsize readbytes
        ≡ ret (r, store buf (offset + readbytes) (map some ((b ∷ bs) ++ cs)), w'')
  unfolding read_bytes
  got_bytes fuel w fd buf offset bufsize readbytes b bs w' r cs w'' e more ran =
      let merged : store (store buf (offset + readbytes) (map some (b ∷ bs)))
            (offset + (readbytes + length (b ∷ bs))) (map some cs)
          ≡ store buf (offset + readbytes) (map some ((b ∷ bs) ++ cs)) =
        store-append buf (offset + readbytes) (offset + (readbytes + length (b ∷ bs)))
          (map some (b ∷ bs)) (map some cs) (omega (arith, length-map some bs))
        ∙ ap (store buf (offset + readbytes)) (sym (map-append some (b ∷ bs) cs)) in
      ground (arith, e, ran ∙ ap (λ t. ret (r, t, w'')) merged)

  -- What follows one answer of the kernel, given what `fuel` more rounds do.
  after_answer :
      (stream : IsStream recv) (fuel : ℕ) (w : W) (fd : ℕ) (buf : List Cell)
      (offset bufsize readbytes : ℕ) (a : Recv) (w' : W)
      → ((v : W) (to : List Cell) (n : ℕ)
          → n ≤ bufsize
          → bufsize + stream.signals v < fuel + n
          → Reads stream fuel v fd to offset bufsize n)
      → recv w fd (bufsize - readbytes) ≡ (a, w')
      → readbytes < bufsize
      → bufsize + stream.signals w < suc fuel + readbytes
      → length (given a) ≤ bufsize - readbytes
      → stream.incoming w fd ≡ given a ++ stream.incoming w' fd
      → interruptions a + stream.signals w' ≤ stream.signals w
      → Reads stream (suc fuel) w fd buf offset bufsize readbytes
  unfolding read_bytes
  after_answer stream fuel w fd buf offset bufsize readbytes (Recv.got b bs) w' ih e more f g c s =
      let (r, cs, w'', ran, d) =
        ih w' (store buf (offset + readbytes) (map some (b ∷ bs))) (readbytes + length (b ∷ bs))
          (omega arith) (omega arith) in
      (
        r,
        (b ∷ bs) ++ cs,
        w'',
        got_bytes fuel w fd buf offset bufsize readbytes b bs w' r cs w'' e more ran,
        record {
          conserves = c ∙ ap (λ l. b ∷ bs ++ l) d.conserves ∙ sym (append_assoc (b ∷ bs) cs _);
          within = omega (arith, d.within, length-append (b ∷ bs) cs);
          patience = omega (arith, d.patience);
          stop =
              subst (λ n. Stop fd r n bufsize w'') (omega (arith, length-append (b ∷ bs) cs))
                d.stop;
        },
      )
  after_answer stream fuel w fd buf offset bufsize readbytes Recv.closed w' ih e more f g c s = (
    none,
    [],
    w',
    rw (store-nil buf (offset + readbytes)) (ground (arith, e)),
    record {
      conserves = c;
      within = omega arith;
      patience = omega arith;
      stop = inr (refl, (w, bufsize - readbytes, inl e));
    },
  )
  after_answer stream fuel w fd buf offset bufsize readbytes Recv.interrupted w' ih e more f g c s =
      let (r, cs, w'', ran, d) = ih w' buf readbytes (omega arith) (omega arith) in
      (
        r,
        cs,
        w'',
        ground (arith, e, ran),
        record {
          conserves = c ∙ d.conserves;
          within = d.within;
          patience = omega (arith, d.patience);
          stop = d.stop;
        },
      )
  after_answer stream fuel w fd buf offset bufsize readbytes Recv.would_block w' ih e more f g c s =
      (
        some readbytes,
        [],
        w',
        rw (store-nil buf (offset + readbytes)) (ground (arith, e)),
        record {
          conserves = c;
          within = omega arith;
          patience = omega arith;
          stop = inl (ap some (omega arith), inr (w, bufsize - readbytes, e));
        },
      )
  after_answer stream fuel w fd buf offset bufsize readbytes Recv.failed w' ih e more f g c s = (
    none,
    [],
    w',
    rw (store-nil buf (offset + readbytes)) (ground (arith, e)),
    record {
      conserves = c;
      within = omega arith;
      patience = omega arith;
      stop = inr (refl, (w, bufsize - readbytes, inr e));
    },
  )

  all_read :
      (stream : IsStream recv) (fuel : ℕ) (w : W) (fd : ℕ) (buf : List Cell)
      (offset bufsize readbytes : ℕ)
      → readbytes ≤ bufsize
      → ¬ readbytes < bufsize
      → Reads stream (suc fuel) w fd buf offset bufsize readbytes
  unfolding read_bytes
  all_read stream fuel w fd buf offset bufsize readbytes h full = (
    some readbytes,
    [],
    w,
    rw (store-nil buf (offset + readbytes)) (ground arith),
    record {
      conserves = refl;
      within = omega arith;
      patience = omega arith;
      stop = inl (ap some (omega arith), inl (omega arith));
    },
  )

  -- With fuel for each byte asked for and for each interruption, reading returns.
  pub read_bytes_lem :
      (stream : IsStream recv) (fuel : ℕ) (w : W) (fd : ℕ) (buf : List Cell)
      (offset bufsize readbytes : ℕ)
      → readbytes ≤ bufsize
      → bufsize + stream.signals w < fuel + readbytes
      → Reads stream fuel w fd buf offset bufsize readbytes
  unfolding read_bytes
  read_bytes_lem stream zero w fd buf offset bufsize readbytes h f = absurd (omega arith)
  read_bytes_lem stream (suc fuel) w fd buf offset bufsize readbytes h f =
      elim (dec_lt readbytes bufsize) [
        | no full ↦ all_read stream fuel w fd buf offset bufsize readbytes h full
        | yes more ↦
            after_answer stream fuel w fd buf offset bufsize readbytes
              (recv w fd (bufsize - readbytes)).0 (recv w fd (bufsize - readbytes)).1
              (λ v to n hn hf. read_bytes_lem stream fuel v fd to offset bufsize n hn hf) refl more
              f (stream.fits w fd (bufsize - readbytes))
              (stream.conserves w fd (bufsize - readbytes))
              (stream.patience w fd (bufsize - readbytes))
      ]
