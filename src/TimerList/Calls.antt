-- ===== src/TimerList/Calls.antt =====
-- What the loop of src/slam_timer_list.c relies on when it calls a timer's Lua function: the
-- function works on a sound list, leaves the node of the timer that is running alone, and adds no
-- more timers than there is room for.
use slam.Base.{ℕ, suc, ◌≤◌, ◌≡◌, ◌≢◌, List, none, some, Run, ret, length}
use slam.TimerList.Heap.{Ptr, null}
use slam.TimerList.{TimerList}
use slam.TimerList.Spec.{Node}
use slam.TimerList.Chain.{timer, Apart, Holds}
use slam.TimerList.Order.{IsGood, due_count}

pub record LuaTimers {W C : Type 0} (event_timer : W → TimerList C → Ptr → Run (W × TimerList C))
    (size : ℕ) : Type 1 where
  -- the effect of a timer's function on the program and on the timers of the list
  pub acts : W → Node C → List (Node C) → W × List (Node C)
  -- the program may still have so many timers
  pub Room : W → ℕ → Type 0
  pub room_fits : (w : W) (m : ℕ) → Room w m → m ≤ size
  pub room_down : (w : W) (m : ℕ) → Room w (suc m) → Room w m
  pub acts_room :
      (w : W) (n : Node C) (xs : List (Node C))
      → Room w (suc (length xs))
      → Room (acts w n xs).0 (suc (length (acts w n xs).1))
  pub acts_sound :
      (w : W) (s : TimerList C) (n : Node C) (p q : Ptr) (xs : List (Node C))
      → Holds s xs
      → n.addr ≢ null
      → s.heap n.addr ≡ some (timer n p q)
      → Apart n.addr xs
      → Room w (suc (length xs))
      → (s' : TimerList C) × (p' : Ptr) × (q' : Ptr) × (event_timer w s n.addr
          ≡ ret ((acts w n xs).0, s'))
        × Holds s' (acts w n xs).1
        × (s'.heap n.addr ≡ some (timer n p' q'))
        × Apart n.addr (acts w n xs).1

-- The function makes no timer: a free node stays free.
abbrev pub IsFrugal : {W C : Type 0} → (W → TimerList C → Ptr → Run (W × TimerList C)) → Type 0
IsFrugal {W} {C} event_timer =
    (w w' : W) (s s' : TimerList C) (p a : Ptr)
    → event_timer w s p ≡ ret (w', s')
    → s.heap a ≡ none
    → s'.heap a ≡ none

-- The function makes no more timers due than were.
pub record IsTame {W C : Type 0} (nowtime : ℕ)
    (acts : W → Node C → List (Node C) → W × List (Node C)) : Type 0 where
  pub keeps_good :
      (w : W) (n : Node C) (xs : List (Node C)) → IsGood nowtime xs → IsGood nowtime (acts w n xs).1
  pub adds_no_due :
      (w : W) (n : Node C) (xs : List (Node C))
      → due_count nowtime (acts w n xs).1 ≤ due_count nowtime xs
