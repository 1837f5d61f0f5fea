-- ===== src/ByteBuffer/History.antt =====
-- Whole histories of calls of src/slam_byte_buffer.c, against the list of the bytes written and not
-- yet read.
use slam.Base.{
  ℕ, ◌+◌, ◌-◌, ◌^◌, ◌≤◌, ◌<◌, ◌≡◌, refl, some, List, [], ◌∷◌, ◌++◌, map, Run, ret, ◌>>=◌, length,
  take, drop, arith, max,
}
use slam.Message.Cells.{Cell}
use slam.ByteBuffer.{ByteBuffer, chunk_size}
use slam.ByteBuffer
use slam.ByteBuffer.Bounds.{Holds}
use slam.ByteBuffer.Writing.{reserve_lem, write_lem}
use slam.ByteBuffer.Reading.{read_lem, emptied-Holds}

pub data Call : Type 0 where
  write : List ℕ → Call
  read : ℕ → Call
  size : Call
  reset : Call
  clear : Call

pub data Reply : Type 0 where
  done : Reply
  bytes : List Cell → Reply
  number : ℕ → Reply

unfoldable pub apply : ByteBuffer → Call → Run (Reply × ByteBuffer)
apply b (Call.write ys) = ByteBuffer.write b (map some ys) >>= λ b'. ret (Reply.done, b')
apply b (Call.read n) = ByteBuffer.read b n >>= λ (cs, b'). ret (Reply.bytes cs, b')
apply b Call.size = ByteBuffer.size b >>= λ n. ret (Reply.number n, b)
apply b Call.reset = ret (Reply.done, ByteBuffer.reset b)
apply b Call.clear = ret (Reply.done, ByteBuffer.clear b)

unfoldable pub run : ByteBuffer → List Call → Run (List Reply × ByteBuffer)
run b [] = ret ([], b)
run b (c ∷ cs) = apply b c >>= λ (r, b'). run b' cs >>= λ (rs, last). ret (r ∷ rs, last)

-- What the same calls do to a list of bytes.
unfoldable pub effect : List ℕ → Call → Reply × List ℕ
effect xs (Call.write ys) = (Reply.done, xs ++ ys)
effect xs (Call.read n) = (Reply.bytes (map some (take n xs)), drop n xs)
effect xs Call.size = (Reply.number (length xs), xs)
effect xs Call.reset = (Reply.done, [])
effect xs Call.clear = (Reply.done, [])

unfoldable pub effects : List ℕ → List Call → List Reply × List ℕ
effects xs [] = ([], xs)
effects xs (c ∷ cs) = let (rs, last) = effects (effect xs c).1 cs in ((effect xs c).0 ∷ rs, last)

-- A bound on the room that a call makes a buffer take.
unfoldable pub cost : Call → ℕ
cost (Call.write ys) = chunk_size + length ys
cost (Call.read n) = 0
cost Call.size = 0
cost Call.reset = 0
cost Call.clear = 0

abbrev pub room : List Call → ℕ
room [] = 0
room (c ∷ cs) = cost c + room cs

record Agrees (b : ByteBuffer) (xs : List ℕ) (c : Call) (b' : ByteBuffer) : Type 0 where
  replies : apply b c ≡ ret ((effect xs c).0, b')
  holds : Holds b' (effect xs c).1
  bounded : b'.capacity ≤ b.capacity + cost c

size_lem : (b : ByteBuffer) (xs : List ℕ) → Holds b xs → ByteBuffer.size b ≡ ret (length xs)
unfolding ByteBuffer.size
size_lem b xs v =
    let n : b.wlength - b.rlength ≡ length xs = omega (arith, v.reads, v.writes) in
    ground (arith, v.reads, v.writes, n)

clear-Holds : (b : ByteBuffer) → Holds (ByteBuffer.clear b) []
unfolding ByteBuffer.clear
clear-Holds b = record {
  before = [];
  after = [];
  layout = refl;
  reads = refl;
  writes = refl;
  fills = omega arith;
  small = omega arith;
}

apply-Agrees :
    (b : ByteBuffer) (xs : List ℕ) (c : Call)
    → Holds b xs
    → b.capacity + cost c < 2 ^ 64
    → (b' : ByteBuffer) × Agrees b xs c b'
unfolding apply effect cost ByteBuffer.reset ByteBuffer.clear
apply-Agrees b xs (Call.write ys) v s =
    let (b', ran, h, bound) = write_lem b xs ys v (omega arith) in
    (b', record { replies = rw ran refl; holds = h; bounded = omega (arith, bound) })
apply-Agrees b xs (Call.read n) v s =
    let (b', ran, h, same) = read_lem b xs n v in
    (b', record { replies = rw ran refl; holds = h; bounded = omega (arith, same) })
apply-Agrees b xs Call.size v s =
    (b, record { replies = rw (size_lem b xs v) refl; holds = v; bounded = omega arith })
apply-Agrees b xs Call.reset v s = (
  ByteBuffer.reset b,
  record { replies = refl; holds = emptied-Holds b xs v; bounded = omega arith },
)
apply-Agrees b xs Call.clear v s =
    (ByteBuffer.clear b, record { replies = refl; holds = clear-Holds b; bounded = omega arith })

-- From a buffer that holds the bytes `xs`, with room below 2 ^ 64 for the bytes of a history of calls
-- and a chunk for each write, no assertion fails, each call replies as on a list that is written at
-- its end and read at its front, and the buffer ends up holding the bytes of that list.
pub run_refines_list :
    (b : ByteBuffer) (xs : List ℕ) (cs : List Call)
    → Holds b xs
    → b.capacity + room cs < 2 ^ 64
    → (b' : ByteBuffer) × (run b cs ≡ ret ((effects xs cs).0, b')) × Holds b' (effects xs cs).1
unfolding run effects
run_refines_list b xs [] v s = (b, refl, v)
run_refines_list b xs (c ∷ cs) v s =
    let (b', a) = apply-Agrees b xs c v (omega arith) in
    let (last, ran, kept) =
      run_refines_list b' (effect xs c).1 cs a.holds (omega (arith, a.bounded)) in
    (last, rw (a.replies, ran) refl, kept)

-- A new buffer, asked for less than 2 ^ 63 bytes, holds none and has room for as many as it was
-- asked for, and for no more than that or one chunk.
pub new_is_empty :
    (initsize : ℕ)
    → initsize < 2 ^ 63
    → (b : ByteBuffer) × (ByteBuffer.new initsize ≡ ret b)
      × Holds b []
      × (initsize ≤ b.capacity)
      × (b.capacity ≤ max chunk_size initsize)
unfolding ByteBuffer.new ByteBuffer.clear
new_is_empty initsize h =
    let unused : ByteBuffer = record { bytes = []; capacity = 0; rlength = 0; wlength = 0 } in
    let (b, r) = reserve_lem unused [] initsize (clear-Holds unused) (omega arith) in
    (b, r.ran, r.kept, omega (arith, r.room, r.kept.fills), omega (arith, r.bounded))
