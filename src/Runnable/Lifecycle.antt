-- ===== src/Runnable/Lifecycle.antt =====
-- src/slam_runnable.c: making and deleting a worker, and loading its script.
use slam.Base.{ℕ, Bool, true, false, Option, none, some, Run, ret, ◌>>=◌, if◌then◌else◌}
use slam.Lua.Api.{Lua, Text}
use slam.Lua.Event.{event_start, event_stop}
use slam.Lua.Registering.{LuaState, load_entryfile}
use slam.Lua.Registering
use slam.Poll.{Poll}
use slam.Poll
use slam.Protocol.{Protocol}
use slam.Protocol
use slam.Protocol.Wire
use slam.System.{System}
use slam.TimerList.{TimerList}
use slam.TimerList
use slam.TimerList.Heap.{Memory}

-- `struct slam_runnable_s`; a null pointer is `none`.
pub record Service (L B T : Type 0) : Type 0 where
  pub script : Option (LuaState L)
  pub poll : Poll
  pub protocol : Option (Protocol B Text)
  pub timer_list : TimerList T

-- SLAM_LUA_STACK_SIZE
abbrev pub stack_size : ℕ
stack_size = 8192

-- `slam_runnable_new`, with the ends of the two socket pairs that it watches, the state of MessageBuilder
-- and the memory of the timers; `none` is the null pointer.
unfoldable pub new :
    {W A L B T : Type 0} → System W A → W → ℕ → ℕ → B → Memory T → Option (Service L B T) × W
unfolding Poll.new Poll.add_socket Protocol.new TimerList.new
new sys w fd_io_worker fd_worker builder heap =
    let (poll, w1) = Poll.new sys w in
    let (watched, w2) = Poll.add_socket sys w1 poll fd_io_worker in
    if watched
    then (let (both, w3) = Poll.add_socket sys w2 poll fd_worker in
        if both
        then (
          some (record {
            script = none;
            poll = poll;
            protocol = some (Protocol.new builder);
            timer_list = TimerList.new heap;
          }),
          w3,
        )
        else (none, w3))
    else (none, w2)

-- the state of MessageBuilder after a protocol, where there is one, is deleted
unfoldable pub without_protocol : {B : Type 0} → (B → B) → B → Option (Protocol B Text) → B
unfolding Wire.delete
without_protocol builder_destroy builder none = builder
without_protocol builder_destroy builder (some p) = Wire.delete builder_destroy p

module _ {L F C : Type 0} (lua : Lua L F C) where
  -- a script that ends is told, and closed
  unfoldable pub stop_script : Option (LuaState L) → Option L
  unfolding event_stop Registering.delete
  stop_script none = none
  stop_script (some s) =
      some (Registering.delete lua (record s { state = (event_stop lua s.state).1 }))

  -- `slam_runnable_delete`, with `MessageBuilderDestroy` and fuel for the list of timers: the memory
  -- without the timers, and the state of the world
  unfoldable pub delete :
      {W A B T : Type 0}
      → System W A
      → (B → B)
      → ℕ
      → W
      → Service L B T
      → Run (Option L × Option B × Memory T × W)
  unfolding stop_script Poll.delete TimerList.delete Wire.delete
  delete sys builder_destroy fuel w s = TimerList.delete fuel s.timer_list >>= λ heap.
      let builder = elim s.protocol as (λ x. Option _) [
        | none ↦ none
        | some p ↦ some (Wire.delete builder_destroy p)
      ] in
      ret (stop_script s.script, builder, heap, Poll.delete sys w s.poll)

  -- `slam_runnable_load_entryfile`, with `slam_lua_reg_std_func`, the state that `luaL_newstate` gives
  -- and `MessageBuilderDestroy` and `MessageBuilderInit`; the state of the script before is closed.
  unfoldable pub load_script :
      {B T : Type 0}
      → (L → L)
      → L
      → (B → B)
      → (B → B)
      → B
      → Service L B T
      → Text
      → Bool × Service L B T
  unfolding without_protocol Registering.new load_entryfile event_start Protocol.new
  load_script reg_std_func fresh builder_destroy builder_init builder s entryfile =
      let started = Registering.new lua reg_std_func fresh stack_size in
      let builder1 = without_protocol builder_destroy builder s.protocol in
      let protocol = Protocol.new (builder_init builder1) in
      let (rc, loaded) = load_entryfile lua started entryfile in
      if rc
      then (
        true,
        record s {
          script = some (record loaded { state = (event_start lua loaded.state).1 });
          protocol = some protocol;
        },
      )
      else (false, record s { script = some loaded; protocol = some protocol })
