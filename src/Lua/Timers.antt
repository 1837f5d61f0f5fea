-- ===== src/Lua/Timers.antt =====
-- src/slam_lua_func.c: the functions of the timers that a script is offered. The state of Lua is the one
-- of the worker. Each gives the number of results, and the worker after it.
use slam.Base.{
  as_int, ℕ, suc, ◌-◌, ◌^◌, ℤ, pos, negsuc, Bool, some, Run, ret, fault, ◌>>=◌, ◌==◌, if◌then◌else◌,
  u64,
}
use slam.Lua.Api.{Lua, is_boolean, is_nil, is_function}
use slam.Lua.{copy_number, ref, unref}
use slam.Lua.Value.{LuaValue, set_boolean, set_string, set_nil}
use slam.Lua.Value
use slam.Runnable.{Runnable, add_timer, remove_timer}
use slam.TimerList.Heap.{Ptr}

-- a `lua_Integer` as a `uint64_t`
abbrev pub unsigned : ℤ → ℕ
unsigned (pos n) = u64 n
unsigned (negsuc n) = u64 (2 ^ 64 - suc n)

-- `slam_lua_value_new`
abbrev nothing_yet : {F : Type 0} → LuaValue F
nothing_yet = slam.Lua.Value.new

module _ {L F C : Type 0} (lua : Lua L F C) where
  -- the context of `cc_newtimer`, from the third argument; a value of another type leaves it nil.
  unfoldable pub context : L → LuaValue F × L
  context l =
      if is_boolean lua l (pos 3)
      then (set_boolean nothing_yet (lua.to_boolean l (pos 3)), l)
      else if lua.is_number l (pos 3)
      then (copy_number lua l (pos 3) nothing_yet, l)
      else if lua.is_string l (pos 3)
      then (let (s, l') = lua.to_string l (pos 3) in (set_string nothing_yet s, l'))
      else if is_nil lua l (pos 3)
      then (set_nil nothing_yet, l)
      else (nothing_yet, l)

  -- the end of `cc_newtimer`, with the reference of the function. A function's reference is not negative.
  unfoldable pub add_with_ref :
      ℕ
      → Runnable L (LuaValue F)
      → Ptr
      → ℕ
      → ℕ
      → Bool
      → LuaValue F
      → ℤ
      → Run (ℕ × Runnable L (LuaValue F))
  unfolding add_timer
  add_with_ref fuel runnable p now interval forever ctx (negsuc n) = fault
  add_with_ref fuel runnable p now interval forever ctx (pos key) =
      add_timer fuel runnable p now interval forever key (some ctx) >>= λ r.
      ret (1, record r { lua = lua.push_integer r.lua (pos key) })

  -- `cc_newtimer`, at the address that `malloc` gives and the clock's milliseconds
  unfoldable pub cc_newtimer :
      ℕ → Runnable L (LuaValue F) → Ptr → ℕ → Run (ℕ × Runnable L (LuaValue F))
  unfolding context add_with_ref
  cc_newtimer fuel runnable p now =
      let l = runnable.lua in
      if lua.get_top l == 4
      then (if lua.is_number l (pos 1)
          then (if is_boolean lua l (pos 2)
              then (let (ctx, l1) = context l in
                  if is_function lua l1 (pos 4)
                  then (let (key, l2) = ref lua (lua.push_value l1 (pos 4)) in
                      add_with_ref fuel (record runnable { lua = l2 }) p now
                        (unsigned (lua.to_integer l (pos 1))) (lua.to_boolean l (pos 2)) ctx key)
                  else ret (0, record runnable { lua = l1 }))
              else ret (0, runnable))
          else ret (0, runnable))
      else ret (0, runnable)

  -- `cc_remove_timer`, for a reference that is not negative: no timer has another.
  unfoldable pub cc_remove_timer : ℕ → Runnable L (LuaValue F) → Run (ℕ × Runnable L (LuaValue F))
  unfolding remove_timer
  cc_remove_timer fuel runnable =
      let l = runnable.lua in
      if lua.get_top l == 1
      then (if lua.is_number l (pos 1)
          then elim (as_int (lua.to_integer l (pos 1))) [
            | negsuc n ↦ ret (0, runnable)
            | pos key ↦
                remove_timer (λ l r. unref lua l (pos r)) fuel runnable key >>= λ r. ret (0, r)
          ]
          else ret (0, runnable))
      else ret (0, runnable)
