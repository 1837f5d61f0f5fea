-- ===== src/Socket/Fronts.antt =====
-- The message at the front of the queue of a socket, of which `slam_socket_poll_write` of
-- src/io/slam_socket.c sends a part.
use slam.Base.{
  zero, length-drop, ℕ, suc, ◌+◌, ◌%◌, ◌^◌, ◌≤◌, ◌<◌, ◌≡◌, refl, sym, ◌∙◌, ap, subst, Option, none,
  some, List, [], ◌∷◌, map, ret, length, length-set, drop, set, get_or-set_self, get_or-set_ne,
  arith, mod-add-mod, u64,
}
use slam.Message.{Message}
use slam.Message.Cells.{Cell}
use slam.MessageQueue.{MessageQueue}
use slam.MessageQueue.Bounds.{Slots, Holds, ahead-ne}
use slam.MessageQueue.Refine.{read, pop_some}
use slam.Socket.Sending.{change_front, count_sent}

-- Another slot's write leaves the slots ahead of it alone.
Slots-set_behind :
    (buf : List (Option Message)) (cap h k : ℕ) (m : Option Message) (xs : List Message)
    → h < cap
    → 0 < k
    → k + length xs ≤ cap
    → Slots buf cap ((h + k) % cap) xs
    → Slots (set buf h m) cap ((h + k) % cap) xs
Slots-set_behind buf cap h k m [] hh hk n s = tt
Slots-set_behind buf cap h k m (x ∷ xs) hh hk n s = (
  get_or-set_ne buf h ((h + k) % cap) m none (λ e. ahead-ne cap h k hh (omega arith) hk (sym e))
      ∙ s.0,
  subst (λ i. Slots (set buf h m) cap i xs) (sym (step cap h k))
      (Slots-set_behind buf cap h (k + 1) m xs hh (omega arith) (omega arith)
        (subst (λ i. Slots buf cap i xs) (step cap h k) s.1)),
)
  where
    step : (cap h k : ℕ) → ((h + k) % cap + 1) % cap ≡ (h + (k + 1)) % cap
    step cap h k = rw mod-add-mod (ap (λ i. i % cap) (omega arith))

pub change_front-Holds :
    (mq : MessageQueue Message) (m m' : Message) (ms : List Message)
    → Holds mq (m ∷ ms)
    → Holds (change_front mq m') (m' ∷ ms)
change_front-Holds mq m m' ms v = record {
  storage = length-set mq.queue mq.rindex (some m') ∙ v.storage;
  small = v.small;
  reads_in = v.reads_in;
  writes_in = v.writes_in;
  fits = v.fits;
  ahead = v.ahead;
  reads = v.reads;
  writes = v.writes;
  slots = (
    get_or-set_self mq.queue mq.rindex (some m') none (omega (arith, v.storage, v.reads_in)),
    Slots-set_behind mq.queue mq.maxsize mq.rindex 1 (some m') ms v.reads_in (omega arith)
        (omega (arith, v.fits)) v.slots.1,
  );
}

-- The message has the given bytes left to send.
pub record HasLeft (m : Message) (bs : List ℕ) : Type 0 where
  pub small : m.bufsize < 2 ^ 64
  pub sizes : m.bytesize + length bs ≡ m.bufsize
  pub some_left : 0 < length bs
  pub left : drop m.bytesize m.buf ≡ map some bs

abbrev pub HaveLeft : List Message → List (List ℕ) → Type 0
HaveLeft [] [] = Unit {0}
HaveLeft [] (bs ∷ bss) = ⊥
HaveLeft (m ∷ ms) [] = ⊥
HaveLeft (m ∷ ms) (bs ∷ bss) = HasLeft m bs × HaveLeft ms bss

pub drop-map : (n : ℕ) (bs : List ℕ) → drop n (map some bs) ≡ map some (drop n bs)
drop-map zero bs = refl
drop-map (suc n) [] = refl
drop-map (suc n) (b ∷ bs) = drop-map n bs

drop-drop : (i n j : ℕ) (cs : List Cell) → j ≡ i + n → drop j cs ≡ drop n (drop i cs)
drop-drop zero n j cs e = ap (λ k. drop k cs) (omega arith)
drop-drop (suc i) zero zero [] e = refl
drop-drop (suc i) (suc n) zero [] e = refl
drop-drop (suc i) zero (suc j) [] e = refl
drop-drop (suc i) (suc n) (suc j) [] e = refl
drop-drop (suc i) n zero (c ∷ cs) e = absurd (omega arith)
drop-drop (suc i) n (suc j) (c ∷ cs) e = drop-drop i n j cs (omega arith)

abbrev pub advanced : Message → ℕ → Message
advanced m n = record m { bytesize = m.bytesize + n }

pub advanced-HasLeft :
    (m : Message) (bs : List ℕ) (n : ℕ)
    → HasLeft m bs
    → n < length bs
    → HasLeft (advanced m n) (drop n bs)
advanced-HasLeft m bs n h less = record {
  small = h.small;
  sizes = omega (arith, h.sizes, length-drop n bs);
  some_left = omega (arith, length-drop n bs);
  left = drop-drop m.bytesize n (m.bytesize + n) m.buf refl ∙ ap (drop n) h.left ∙ drop-map n bs;
}

pub sent_part :
    (mq : MessageQueue Message) (m : Message) (bs : List ℕ) (n : ℕ)
    → HasLeft m bs
    → n < length bs
    → count_sent mq m n ≡ ret (change_front mq (advanced m n))
unfolding count_sent
sent_part mq m bs n h less = ground (arith, h.sizes, h.small)

pub sent_all :
    (mq : MessageQueue Message) (m : Message) (ms : List Message) (bs : List ℕ) (n : ℕ)
    → Holds mq (m ∷ ms)
    → HasLeft m bs
    → n ≡ length bs
    → count_sent mq m n ≡ ret (read (change_front mq (advanced m n)))
unfolding count_sent
sent_all mq m ms bs n v h all =
    let popped =
      pop_some (change_front mq (advanced m n)) (advanced m n) ms
        (change_front-Holds mq m (advanced m n) ms v) in
    let whole : m.bytesize + n ≡ m.bufsize = omega (arith, h.sizes) in
    let same : u64 (m.bytesize + n) ≡ m.bytesize + n = omega (arith, h.small) in
    rw same (ground (arith, popped, whole))
