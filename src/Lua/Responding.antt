-- ===== src/Lua/Responding.antt =====
-- What `cc_response` of src/slam_lua_func.c tells a script.
use slam.Base.{ℕ, suc, ◌<◌, ℤ, ◌≡◌, ap, subst, true, Option, some, List, length, ret, arith}
use slam.Lua.Api.{Lua, Text}
use slam.Lua.Func.{respond}
use slam.Message.{Message}
use slam.MessageQueue.{MessageQueue}
use slam.MessageQueue.Bounds.{Holds}
use slam.MessageQueue.Fifo
use slam.Socket.{Socket}
use slam.System.{System}
use slam.IoThread.{IoThread, Setup, set_socket}
use slam.IoThread.Removal.{response_lem}
use slam.Protocol.Wire.{encode}

module _ {L F C W : Type 0} (lua : Lua L F C) (sys : System W Text) (setup : Setup) where
  -- When the ring of the socket is full, the message is dropped and the script is told true all the same;
  -- the ring holds what it held.
  pub respond-full :
      (builder_encode : L → ℤ → Option (List ℕ) × L) (l l1 : L) (w : W) (io : IoThread) (fd : ℕ)
      (msgid : ℤ) (m : Message) (s : Socket) (ys : List Message)
      → encode builder_encode l fd msgid ≡ ret (some m, l1)
      → m.fd < 65536
      → io.sockets m.fd ≡ some s
      → Holds s.sendmq ys
      → suc (length ys) ≡ s.sendmq.maxsize
      → (mq' : MessageQueue Message) × (respond lua sys setup builder_encode l w io fd msgid
          ≡ ret (
            1,
            lua.push_boolean l1 true,
            set_socket io m.fd (some (record s { sendmq = mq' })),
            w,
          ))
        × Holds mq' ys
  unfolding respond
  respond-full builder_encode l l1 w io fd msgid m s ys made below there v full =
      let (mq', holds, said) = response_lem sys setup w io m s ys below there v in
      (
        mq',
        ground (arith, made, said, full),
        subst (Holds mq')
            (ap (λ r. r.1)
              (Fifo.push_full s.sendmq.maxsize ys (record m { bytesize = 0 })
                (omega (arith, full))))
            holds,
      )
