-- ===== src/ByteBuffer/Tests.antt =====
-- Runs of the buffer of src/slam_byte_buffer.c, and each theorem at a concrete input.
use slam.Base.{◌≡◌, refl, none, some, List, [], ◌∷◌, ret, arith}
use slam.ByteBuffer.{ByteBuffer}
use slam.ByteBuffer
use slam.ByteBuffer.Bounds.{Holds}
use slam.ByteBuffer.History.{Call, Reply, run, effects, cost, run_refines_list}

-- two bytes read, and two left, in room for five
abbrev two_unread : ByteBuffer
two_unread = record {
  bytes = some 1 ∷ some 2 ∷ some 3 ∷ some 4 ∷ none ∷ [];
  capacity = 5;
  rlength = 2;
  wlength = 4;
}

two_unread-Holds : Holds two_unread (3 ∷ 4 ∷ [])
two_unread-Holds = record {
  before = some 1 ∷ some 2 ∷ [];
  after = none ∷ [];
  layout = refl;
  reads = refl;
  writes = refl;
  fills = refl;
  small = omega arith;
}

abbrev calls : List Call
calls = Call.write (5 ∷ 6 ∷ []) ∷ Call.size ∷ Call.read 3 ∷ Call.read 9 ∷ Call.size ∷ []

run_refines_list_example :
    (b' : ByteBuffer) × (run two_unread calls ≡ ret ((effects (3 ∷ 4 ∷ []) calls).0, b'))
    × Holds b' (effects (3 ∷ 4 ∷ []) calls).1
unfolding cost
run_refines_list_example =
    run_refines_list two_unread (3 ∷ 4 ∷ []) calls two_unread-Holds (omega arith)

effects-calls : effects (3 ∷ 4 ∷ []) calls ≡ (
  Reply.done
      ∷ Reply.number 4
      ∷ Reply.bytes (some 3 ∷ some 4 ∷ some 5 ∷ [])
      ∷ Reply.bytes (some 6 ∷ [])
      ∷ Reply.number 0
      ∷ [],
  [],
)
unfolding effects slam.ByteBuffer.History.effect
effects-calls = refl
