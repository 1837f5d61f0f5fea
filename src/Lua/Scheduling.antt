-- ===== src/Lua/Scheduling.antt =====
-- What the timers of a script in src/slam_lua_func.c do to the worker.
use slam.Base.{
  ℕ, ◌+◌, ◌≤◌, ◌<◌, pos, ◌≡◌, ◌≢◌, refl, ◌∙◌, ap, true, some, List, ◌∷◌, ◌++◌, ret, length, u64,
}
use slam.Lua.Api.{Lua, is_boolean, is_function}
use slam.Lua.Value.{LuaValue}
use slam.Lua.{ref}
use slam.Lua.Timers.{unsigned, context, add_with_ref, cc_newtimer}
use slam.Runnable.{Runnable}
use slam.Runnable.Timers.{made, add_timer_lem}
use slam.TimerList.Heap.{Ptr, null}
use slam.TimerList.Spec.{Node, All, IsSorted}
use slam.TimerList.Chain.{Apart, Holds}

module _ {L F C : Type 0} (lua : Lua L F C) where
  -- what the function does once its arguments have passed
  newtimer_runs :
      (fuel : ℕ) (r : Runnable L (LuaValue F)) (p : Ptr) (now key : ℕ) (ctx : LuaValue F)
      (l1 l2 : L)
      → lua.get_top r.lua ≡ 4
      → lua.is_number r.lua (pos 1) ≡ true
      → is_boolean lua r.lua (pos 2) ≡ true
      → context lua r.lua ≡ (ctx, l1)
      → is_function lua l1 (pos 4) ≡ true
      → ref lua (lua.push_value l1 (pos 4)) ≡ (pos key, l2)
      → cc_newtimer lua fuel r p now
        ≡ add_with_ref lua fuel
            (record r { lua = l2 })
            p
            now
            (unsigned (lua.to_integer r.lua (pos 1)))
            (lua.to_boolean r.lua (pos 2))
            ctx
            (pos key)
  unfolding cc_newtimer
  newtimer_runs fuel r p now key ctx l1 l2 e1 e2 e3 e4 e5 e6 =
      rw (e1, e2, e3, ap (λ p. p.1) e4, e5, ap (λ p. p.0) e4, ap (λ p. p.0) e6, ap (λ p. p.1) e6)
        refl

  -- A script that asks for a timer as it should, at an address that no timer has, gets the reference of its
  -- function; the timer goes behind all that expire no later and before all others.
  pub cc_newtimer_lem :
      (fuel : ℕ) (r : Runnable L (LuaValue F)) (xs : List (Node (LuaValue F))) (p : Ptr)
      (now key : ℕ) (ctx : LuaValue F) (l1 l2 : L)
      → lua.get_top r.lua ≡ 4
      → lua.is_number r.lua (pos 1) ≡ true
      → is_boolean lua r.lua (pos 2) ≡ true
      → context lua r.lua ≡ (ctx, l1)
      → is_function lua l1 (pos 4) ≡ true
      → ref lua (lua.push_value l1 (pos 4)) ≡ (pos key, l2)
      → Holds r.timer_list xs
      → IsSorted xs
      → p ≢ null
      → Apart p xs
      → length xs ≤ fuel
      → (r' : Runnable L (LuaValue F)) × (before after : List (Node (LuaValue F))) × (cc_newtimer
            lua fuel r p now
          ≡ ret (1, r'))
        × Holds r'.timer_list (
            before
            ++ (made p now
                  (unsigned (lua.to_integer r.lua (pos 1)))
                  (lua.to_boolean r.lua (pos 2))
                  key
                  (some ctx)
                ∷ after))
        × (xs ≡ before ++ after)
        × All (λ y. y.expire_time ≤ u64 (now + unsigned (lua.to_integer r.lua (pos 1)))) before
        × All (λ y. u64 (now + unsigned (lua.to_integer r.lua (pos 1))) < y.expire_time) after
        × (r'.lua ≡ lua.push_integer l2 (pos key))
  unfolding add_with_ref
  cc_newtimer_lem fuel r xs p now key ctx l1 l2 e1 e2 e3 e4 e5 e6 v o p0 out f =
      let (r', before, after, ran, v', e, b, a, same) =
        add_timer_lem fuel (record r { lua = l2 }) xs p now
          (unsigned (lua.to_integer r.lua (pos 1))) (lua.to_boolean r.lua (pos 2)) key (some ctx) v
          o p0 out f in
      (
        record r' { lua = lua.push_integer r'.lua (pos key) },
        before,
        after,
        newtimer_runs fuel r p now key ctx l1 l2 e1 e2 e3 e4 e5 e6 ∙ rw ran refl,
        v',
        e,
        b,
        a,
        ap (λ l. lua.push_integer l (pos key)) same,
      )
