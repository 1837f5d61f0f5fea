-- ===== src/Socket/Framing.antt =====
-- The messages in a stream of bytes, as src/io/slam_socket.c takes it apart: a message is as long as
-- the number in its first 4 bytes says.
use slam.Base.{
  ℕ, suc, ◌≤◌, ◌<◌, ◌≡◌, ◌⊎◌, Bool, true, false, none, some, List, [], ◌∷◌, ◌++◌, map, length, take,
}
use slam.Message.{Message, MessageType, package_min_size}
use slam.Message.Cells.{word, filled}
use slam.Socket.Kernel.{Recv}
use slam.Socket.Reads.{Blocked, Lost}
use slam.Socket.{Socket}

-- A message of `len` bytes of which the given ones have been read.
abbrev pub partial : ℕ → ℕ → List ℕ → Message
partial fd len bs = record {
  fd = fd;
  kind = MessageType.protobuf_package;
  bufsize = len;
  bytesize = length bs;
  buf = filled len bs;
}

abbrev pub frame : ℕ → List ℕ → Message
frame fd bs = partial fd (length bs) bs

abbrev pub says : List ℕ → ℕ
says bs = word (map some (take 4 bs))

-- the bytes of one whole message
abbrev pub IsFrame : ℕ → List ℕ → Type 0
IsFrame max_package_size bs =
    (package_min_size ≤ length bs) × (length bs < max_package_size) × (says bs ≡ length bs)

abbrev pub AllFrames : ℕ → List (List ℕ) → Type 0
AllFrames max_package_size [] = Unit {0}
AllFrames max_package_size (bs ∷ fs) = IsFrame max_package_size bs × AllFrames max_package_size fs

abbrev pub join : List (List ℕ) → List ℕ
join [] = []
join (bs ∷ fs) = bs ++ join fs

-- The socket has begun a message of `len` bytes and has read the given ones of it.
pub record IsOpen (max_package_size : ℕ) (socket : Socket) (len : ℕ) (bs : List ℕ) : Type 0 where
  pub begun : socket.readmessage ≡ some (partial socket.fd len bs)
  pub starts : 4 ≤ length bs
  pub fits : length bs ≤ len
  pub low : package_min_size ≤ len
  pub high : len < max_package_size
  pub length_says : says bs ≡ len

-- The socket keeps the given bytes of a message that is not complete yet.
abbrev pub Reading : ℕ → Socket → List ℕ → Type 0
Reading max_package_size socket bs =
    ((socket.readmessage ≡ none) × (bs ≡ [])) ⊎ ((len : ℕ) × IsOpen max_package_size socket len bs)

-- Why the loop of `slam_socket_poll_read` returns its value: `left` are the bytes read of a message
-- that was not handed on, and `held` is the number of messages in the queue.
pub data Ending {W : Type 0} (recv : W → ℕ → ℕ → Recv × W) (max_package_size : ℕ) (socket : Socket)
    (maxsize held : ℕ) (left : List ℕ) (w : W) : Bool → Type 0 where
  no_more_data :
      Reading max_package_size socket left
      → Blocked recv socket.fd w
      → Ending recv max_package_size socket maxsize held left w true
  connection_lost :
      Lost recv socket.fd w → Ending recv max_package_size socket maxsize held left w false
  short_length :
      0 < length left
      → length left < 4
      → Blocked recv socket.fd w
      → Ending recv max_package_size socket maxsize held left w false
  bad_length :
      (length left ≡ 4)
      → (says left < package_min_size) ⊎ (max_package_size ≤ says left)
      → Ending recv max_package_size socket maxsize held left w false
  queue_full :
      IsFrame max_package_size left
      → (suc held ≡ maxsize)
      → Ending recv max_package_size socket maxsize held left w false
