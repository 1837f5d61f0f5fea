-- ===== src/MessageQueue/Tests.antt =====
-- Runs of the ring of io/slam_message_queue.c, and each theorem at a concrete input.
use slam.Base.{
  ltb, if◌then◌else◌, ℕ, ◌+◌, ◌≡◌, refl, some, false, List, [], ◌∷◌, ◌++◌, map, ret, abort, length,
  arith, none, take, ◌≤◌,
}
use slam.MessageQueue.{MessageQueue, new, delete}
use slam.MessageQueue.Bounds.{Holds, new-Holds}
use slam.MessageQueue.History.{run, run_refines, run_spends}
use slam.MessageQueue.Drain.{delete_lem}
use slam.MessageQueue.Ends.{Writer, Reader, Ends, begin, push_step, pop_step, Step, Reach}
use slam.MessageQueue.Crossing.{Reach-take}
use slam.MessageQueue.Fifo
use slam.MessageQueue.Fifo.{Call, Reply}

-- positions 0 to 2, with 7 and 8 at positions 1 and 2
abbrev two_left : MessageQueue ℕ
two_left = record {
  queue = some 6 ∷ some 7 ∷ some 8 ∷ [];
  maxsize = 3;
  rindex = 1;
  windex = 0;
  read_number = 1;
  write_number = 3;
}

two_left-Holds : Holds two_left (7 ∷ 8 ∷ [])
two_left-Holds = record {
  storage = refl;
  small = omega arith;
  reads_in = omega arith;
  writes_in = omega arith;
  fits = omega arith;
  ahead = refl;
  reads = refl;
  writes = refl;
  slots = (refl, (refl, tt));
}

abbrev one_left : MessageQueue ℕ
one_left = record two_left { windex = 2; write_number = 2 }

one_left-Holds : Holds one_left (7 ∷ [])
one_left-Holds = record {
  storage = refl;
  small = omega arith;
  reads_in = omega arith;
  writes_in = omega arith;
  fits = omega arith;
  ahead = refl;
  reads = refl;
  writes = refl;
  slots = (refl, tt);
}

abbrev calls : List (Call ℕ)
calls = Call.push_back 9 ∷ Call.number ∷ Call.pop_front ∷ Call.front ∷ Call.is_empty ∷ []

new-Holds_example :
    (mq : MessageQueue ℕ) × (new 3 ≡ ret mq) × Holds mq [] × (mq.rindex ≡ 0) × (mq.maxsize ≡ 3)
new-Holds_example = new-Holds 3 (omega arith) (omega arith)

run_refines_example :
    (mq' : MessageQueue ℕ) × (run two_left calls ≡ ret ((Fifo.run 2 (7 ∷ 8 ∷ []) calls).0, mq'))
    × Holds mq' (Fifo.run 2 (7 ∷ 8 ∷ []) calls).1
    × (mq'.rindex ≡ 1 + Fifo.served 2 (7 ∷ 8 ∷ []) calls)
unfolding Fifo.served Fifo.apply Fifo.taken
run_refines_example = run_refines two_left (7 ∷ 8 ∷ []) calls two_left-Holds (omega arith)

run-two_left :
    (Fifo.run 2 (7 ∷ 8 ∷ []) calls).0
    ≡ Reply.pushed false
      ∷ Reply.counted 2
      ∷ Reply.popped (some 7)
      ∷ Reply.looked (some 8)
      ∷ Reply.emptiness false
      ∷ []
unfolding Fifo.run Fifo.apply
run-two_left = refl

run_spends_example :
    run two_left ((Call.pop_front ∷ Call.pop_front ∷ []) ++ (Call.is_empty ∷ [])) ≡ abort
unfolding Fifo.served Fifo.apply Fifo.taken
run_spends_example =
    run_spends two_left (7 ∷ 8 ∷ []) (Call.pop_front ∷ Call.pop_front ∷ []) Call.is_empty
      two_left-Holds (omega arith)

delete_lem_example :
    delete one_left
    ≡ (if ltb (1 + length {A = ℕ} (7 ∷ [])) 3 then ret (map some (7 ∷ [])) else abort)
delete_lem_example = delete_lem one_left (7 ∷ []) one_left-Holds

-- 8 is stored while the other thread has stepped behind 7 and not read it yet
abbrev crossing : Ends ℕ
crossing = record {
  mq = record {
    queue = some 7 ∷ some 8 ∷ none ∷ [];
    maxsize = 3;
    rindex = 1;
    windex = 1;
    read_number = 1;
    write_number = 1;
  };
  writer = Writer.stored;
  reader = Reader.between;
  sent = 7 ∷ 8 ∷ [];
  received = some 7 ∷ [];
}

pushed : Reach {A = ℕ} 3 (record {
  mq = record {
    queue = some 7 ∷ none ∷ none ∷ [];
    maxsize = 3;
    rindex = 0;
    windex = 1;
    read_number = 0;
    write_number = 1;
  };
  writer = Writer.asserted 8;
  reader = Reader.between;
  sent = 7 ∷ [];
  received = [];
})
unfolding begin push_step
pushed =
    Reach.later
      (Reach.later
        (Reach.later (Reach.later (Reach.later Reach.start (Step.pushes 7)) (Step.pushes 7))
          (Step.pushes 7))
        (Step.pushes 7))
      (Step.pushes 8)

crossing_reached : Reach 3 crossing
unfolding push_step pop_step
crossing_reached =
    Reach.later
      (Reach.later
        (Reach.later (Reach.later (Reach.later (Reach.later pushed Step.pops) Step.pops) Step.pops)
          (Step.pushes 8))
        (Step.pushes 8))
      Step.pops

Reach-take_example :
    (crossing.received ≡ take 1 (map some crossing.sent)) × (1 ≤ 2) × (2 ≤ 1 + 3) × (1 ≤ 3)
Reach-take_example = Reach-take 3 crossing (omega arith) (omega arith) crossing_reached
