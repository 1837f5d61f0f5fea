-- ===== src/TimerList/Wait.antt =====
-- `slam_timer_list_min_interval` of src/slam_timer_list.c: how long the poll may wait.
use slam.Base.{ℕ, ◌≤◌, ◌≡◌, List, [], ◌∷◌, ret, minus_one, arith}
use slam.TimerList.{TimerList, min_interval}
use slam.TimerList.Spec.{Node}
use slam.TimerList.Chain.{Holds}

module _ {C : Type 0} where
  -- With no timer the wait is -1, which the poll takes for "without end".
  min_interval_none :
      (s : TimerList C) (nowtime : ℕ) → Holds s [] → min_interval s nowtime ≡ ret minus_one
  unfolding min_interval
  min_interval_none s nowtime v = ground (arith, v.starts)

  -- If the first timer has expired, the poll waits without end, just as it does with no timer.
  pub expired_waits_as_none :
      (s t : TimerList C) (nowtime : ℕ) (n : Node C) (xs : List (Node C))
      → Holds s (n ∷ xs)
      → n.expire_time ≤ nowtime
      → Holds t []
      → min_interval s nowtime ≡ min_interval t nowtime
  unfolding min_interval
  expired_waits_as_none s t nowtime n xs v expired none_left =
      ground (arith, v.starts, v.linked.0, v.linked.1, none_left.starts)
