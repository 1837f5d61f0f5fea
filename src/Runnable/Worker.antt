-- ===== src/Runnable/Worker.antt =====
-- src/slam_runnable.c: the loop of a worker, over the ring of messages, the script and the timers. A
-- script's functions call back into the worker (src/slam_lua_func.c), so `L` is the state of Lua together with
-- what these calls change: the table of messages and the timers, which are read from it where they are used.
use slam.Base.{
  ℕ, zero, suc, ℤ, pos, Bool, true, false, none, some, List, Run, ret, fault, stuck, ◌>>=◌,
}
use slam.Message.{Message, MessageType}
use slam.Message.Cells.{Cell}
use slam.MessageQueue.{MessageQueue, is_empty, pop_front}
use slam.Lua.Api.{Lua, Text}
use slam.Lua.Event.{event_establish_connection, event_lost_connection}
use slam.Protocol.{Protocol}
use slam.Protocol.Wire.{decode}
use slam.System.{System}
use slam.Poll.{Poll}
use slam.Poll
use slam.TimerList.{TimerList, min_interval}
use slam.TimerList.Heap.{Ptr}
use slam.TimerList.Firing

module _ {L F C B : Type 0} (lua : Lua L F C) (builder_decode : L → ℤ → List Cell → Bool × L)
    (protocol : L → Protocol B Text) where
  -- the body of the `while` of `slam_runnable_do_message`; the results of the events are not used, and
  -- the message that is deleted has no other part.
  unfoldable pub dispatch : L → Message → Run L
  unfolding decode event_establish_connection event_lost_connection
  dispatch l message = elim message.kind [
    | MessageType.protobuf_package ↦
        decode lua builder_decode (protocol l) l message >>= λ (rc, l'). ret l'
    | MessageType.establish_connection ↦ ret (event_establish_connection lua l (pos message.fd)).1
    | MessageType.lost_connection ↦ ret (event_lost_connection lua l (pos message.fd)).1
  ]

  -- `slam_runnable_do_message`
  unfoldable pub do_message : ℕ → MessageQueue Message → L → Run (MessageQueue Message × L)
  unfolding is_empty pop_front
  do_message zero mq l = stuck
  do_message (suc fuel) mq l = is_empty mq >>= λ done. elim done [
    | true ↦ ret (mq, l)
    | false ↦ pop_front mq >>= λ (first, mq'). elim first [
      | none ↦ fault
      | some message ↦ dispatch l message >>= λ l'. do_message fuel mq' l'
    ]
  ]

-- The state that the loop of a worker changes.
pub record Worker (W L : Type 0) : Type 0 where
  pub world : W
  pub mq : MessageQueue Message
  pub lua : L

module _ {W A L F C B T : Type 0} (sys : System W A) (poll : Poll) (poll_event_number : ℕ)
    (lua : Lua L F C) (builder_decode : L → ℤ → List Cell → Bool × L)
    (protocol : L → Protocol B Text) (timer_list : L → TimerList T)
    (with_timer_list : L → TimerList T → L) (clock : W → ℕ)
    (event_timer : L → TimerList T → Ptr → Run (L × TimerList T)) where
  -- `slam_runnable_run`; `clock` gives the milliseconds, `size` is fuel for the messages, the timers
  -- and the walks along the list.
  unfoldable pub run : ℕ → ℕ → Worker W L → Run (Worker W L)
  unfolding min_interval Poll.wait do_message Firing.run
  run zero size s = stuck
  run (suc fuel) size s = elim (sys.halted s.world) [
    | true ↦ ret s
    | false ↦ min_interval (timer_list s.lua) (clock s.world) >>= λ timeout.
        let (answer, w1) = Poll.wait sys s.world poll poll_event_number timeout in
        elim (sys.halted w1) [
          | true ↦ ret (record s { world = w1 })
          | false ↦ do_message lua builder_decode protocol size s.mq s.lua >>= λ (mq', l1).
              Firing.run event_timer size size (clock w1) l1 (timer_list l1) >>= λ (l2, timers).
              run fuel size (record { world = w1; mq = mq'; lua = with_timer_list l2 timers })
        ]
  ]
