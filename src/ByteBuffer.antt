-- ===== src/ByteBuffer.antt =====
-- src/slam_byte_buffer.c: a buffer of bytes that grows, written at its end and read at its front.
pub mod Bounds
pub mod Writing
pub mod Reading
pub mod History
mod Tests
use slam.Base.{
  ℕ, ◌+◌, ◌-◌, ◌^◌, none, List, [], ◌++◌, Run, ret, ◌>>=◌, ◌>>◌, assert, ltb, leb, ◌==◌,
  if◌then◌else◌, u64, length, take, drop, replicate,
}
use slam.Message.Cells.{Cell, store}

-- `struct slam_byte_buffer_s`, without its field `size`, which is only ever set to 0
pub record ByteBuffer : Type 0 where
  pub bytes : List Cell
  pub capacity : ℕ
  pub rlength : ℕ
  pub wlength : ℕ

-- BUFFER_CHUNK_SIZE
abbrev pub chunk_size : ℕ
chunk_size = 512

-- what `realloc` makes of an array: the bytes it had, as far as the new size reaches
unfoldable pub resize : List Cell → ℕ → List Cell
resize bytes newsize = take newsize bytes ++ replicate (newsize - length bytes) none

unfoldable pub blank : ByteBuffer → Run ℕ
blank b = assert (leb b.wlength b.capacity) >> ret (b.capacity - b.wlength)

unfoldable pub reserve : ByteBuffer → ℕ → Run ByteBuffer
unfolding blank resize
reserve b newsize = blank b >>= λ room.
    if ltb newsize room
    then ret b
    else (let grown = u64 ((if ltb newsize chunk_size then chunk_size else newsize) + b.capacity) in
        ret (record b { bytes = resize b.bytes grown; capacity = grown }))

unfoldable pub size : ByteBuffer → Run ℕ
size b = assert (leb b.rlength b.wlength) >> ret (b.wlength - b.rlength)

unfoldable pub reset : ByteBuffer → ByteBuffer
reset b = record b { rlength = 0; wlength = 0 }

unfoldable pub clear : ByteBuffer → ByteBuffer
clear b = record { bytes = []; capacity = 0; rlength = 0; wlength = 0 }

unfoldable pub shrink : ByteBuffer → Run ByteBuffer
unfolding size reset
shrink b = size b >>= λ n. ret (if n == 0 then reset b else b)

unfoldable pub new : ℕ → Run ByteBuffer
unfolding reserve
new initsize = reserve (record { bytes = []; capacity = 0; rlength = 0; wlength = 0 }) initsize

-- the bytes from the position on at which the next read starts
unfoldable pub readbuffer : ByteBuffer → List Cell
readbuffer b = drop b.rlength b.bytes

unfoldable pub readlength : ByteBuffer → ℕ → Run ByteBuffer
unfolding shrink
readlength b len = do
  let rlength = u64 (b.rlength + len)
  assert (leb rlength b.wlength)
  shrink (record b { rlength = rlength })

-- the position at which the next write starts, in a buffer with room
unfoldable pub writebuffer : ByteBuffer → ℕ → Run (ℕ × ByteBuffer)
unfolding reserve
writebuffer b needsize = reserve b needsize >>= λ b'. ret (b'.wlength, b')

unfoldable pub writelength : ByteBuffer → ℕ → Run ByteBuffer
writelength b len = do
  let wlength = u64 (b.wlength + len)
  assert (leb wlength b.capacity)
  ret (record b { wlength = wlength })

-- `slam_byte_buffer_read`: the bytes copied to the caller
unfoldable pub read : ByteBuffer → ℕ → Run (List Cell × ByteBuffer)
unfolding size readbuffer readlength
read b bufsize = size b >>= λ n.
    let readsize = if ltb bufsize n then bufsize else n in
    readlength b readsize >>= λ b'. ret (take readsize (readbuffer b), b')

-- `slam_byte_buffer_write`
unfoldable pub write : ByteBuffer → List Cell → Run ByteBuffer
unfolding writebuffer writelength
write b buf = writebuffer b (length buf) >>= λ (position, b').
    writelength (record b' { bytes = store b'.bytes position buf }) (length buf)
