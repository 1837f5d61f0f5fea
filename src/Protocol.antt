-- ===== src/Protocol.antt =====
-- src/slam_protocol.c: the table of the messages that a worker knows. The registration with
-- MessageBuilder is an argument.
pub mod Table
pub mod Wire
pub mod Framed
mod Tests
mod WireTests
use slam.Base.{
  zero, suc, ◌+◌, ◌/◌, ◌%◌, [], ◌∷◌, ◌++◌, ℕ, Bool, Option, none, some, List, if◌then◌else◌, ltb, ℤ,
  pos, negsuc, get_or, set, replicate,
}
use slam.Lua.Api.{Text, text}
use slam.Lua.Names.{path_max, printed}

-- MAX_MESSAGE_ID
abbrev pub max_message_id : ℕ
max_message_id = 65536

-- `struct slam_protocol_s`, with the state of MessageBuilder, which the program shares
pub record Protocol (B N : Type 0) : Type 0 where
  pub regtable : List (Option N)
  pub builder : B

module _ {B N : Type 0} where
  unfoldable pub new : B → Protocol B N
  new builder = record { regtable = replicate max_message_id none; builder = builder }

  -- `none` is the null pointer, of a message that is not known.
  unfoldable pub find_name : Protocol B N → ℤ → Option N
  find_name p (negsuc n) = none
  find_name p (pos i) = if ltb i max_message_id then get_or p.regtable i none else none

-- a number in decimal digits, at most as many as given
abbrev pub decimal : ℕ → ℕ → Text
decimal zero n = []
decimal (suc k) n =
    (let rest = decimal k (n / 10) in if ltb n 10 then [] else rest) ++ ((48 + n % 10) ∷ [])

-- `%d` of an `int`, which has at most 10 digits
abbrev pub shown : ℤ → Text
shown (pos n) = decimal 10 n
shown (negsuc n) = text "-" ++ decimal 10 (suc n)

-- MESSAGE_REF_NAME. The block of its buffer has ended when `strdup` reads the name, which C leaves
-- undefined; the model takes what was written.
unfoldable pub message_ref_name : ℤ → Text → Text
message_ref_name msgid typename = printed path_max (typename ++ (text "." ++ shown msgid))

module _ {B : Type 0} (register : B → ℤ → Text → Bool × B) where
  unfoldable pub reg_message : Protocol B Text → ℤ → Text → Option Text × Protocol B Text
  reg_message p (negsuc n) typename = (none, p)
  reg_message p (pos i) typename =
      if ltb i max_message_id
      then elim (get_or p.regtable i none) [
        | some name ↦ (none, p)
        | none ↦
            (let (ok, builder) = register p.builder (pos i) typename in
              if ok
              then (
                some (message_ref_name (pos i) typename),
                record {
                  regtable = set p.regtable i (some (message_ref_name (pos i) typename));
                  builder = builder;
                },
              )
              else (none, record p { builder = builder }))
      ]
      else (none, p)
