-- ===== src/TimerList/Firing.antt =====
-- `slam_timer_list_run` of src/slam_timer_list.c. What a timer's Lua function does to the rest of
-- the program and to the timer list (`slam_lua_event_timer`) is an argument.
use slam.Base.{ℕ, zero, suc, ◌+◌, Run, ret, stuck, ◌>>=◌, leb, ◌==◌, if◌then◌else◌, u64, false}
use slam.TimerList.Heap.{Ptr, null, load, set_body}
use slam.TimerList.{TimerList, add, remove_by_node, timer_delete}

module _ {C : Type 0} where
  -- what happens to the timer after its function: it goes back at its next time, or is freed
  unfoldable pub settle : ℕ → ℕ → TimerList C → Ptr → Run (TimerList C)
  settle size nowtime s node = load s.heap node >>= λ t.
      if t.body.forever
      then (set_body s.heap node (record t.body { expire_time = u64 (nowtime + t.body.interval) })
          >>= λ h. add size (record s { heap = h }) node)
      else (timer_delete s.heap node >>= λ h. ret (record s { heap = h }))

module _ {W C : Type 0} (event_timer : W → TimerList C → Ptr → Run (W × TimerList C)) where
  -- one round of the loop, on the node at the head; `size` is fuel for the walk along the list
  unfoldable pub fire : ℕ → ℕ → W → TimerList C → Ptr → Run (W × TimerList C)
  unfolding settle remove_by_node
  fire size nowtime w s node = remove_by_node s node false >>= λ s1.
      event_timer w s1 node >>= λ (w', s2). settle size nowtime s2 node >>= λ s3. ret (w', s3)

  -- the `while` of `slam_timer_list_run`
  unfoldable pub run : ℕ → ℕ → ℕ → W → TimerList C → Run (W × TimerList C)
  unfolding fire
  run zero size nowtime w s = stuck
  run (suc fuel) size nowtime w s =
      if s.timer_head_node == null
      then ret (w, s)
      else (load s.heap s.timer_head_node >>= λ t.
          if leb t.body.expire_time nowtime
          then (fire size nowtime w s s.timer_head_node >>= λ (w', s'). run fuel size nowtime w' s')
          else ret (w, s))
