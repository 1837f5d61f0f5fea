-- ===== src/Message.antt =====
-- src/io/slam_message.c: a message with its buffer.
pub mod Cells
use slam.Base.{ℕ, List, Option, none, some, replicate}
use Cells.{Cell}

-- the enum of slam_message.h
pub data MessageType : Type 0 where
  establish_connection : MessageType
  lost_connection : MessageType
  protobuf_package : MessageType

-- `struct slam_message_s`; `type` is a field's name in the source.
pub record Message : Type 0 where
  pub fd : ℕ
  pub kind : MessageType
  pub bufsize : ℕ
  pub bytesize : ℕ
  pub buf : List Cell

-- `sizeof(slam_rawmessage_t)`: a length of 4 bytes, an entity of 8, a message id of 4 and flags of 2,
-- packed
abbrev pub package_min_size : ℕ
package_min_size = 18

-- `slam_message_new`; `malloc` does not write the buffer.
unfoldable pub new : ℕ → MessageType → ℕ → Message
new fd kind bufsize = record {
  fd = fd;
  kind = kind;
  bufsize = bufsize;
  bytesize = 0;
  buf = replicate bufsize none;
}
