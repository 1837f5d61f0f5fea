-- ===== src/Lua/Func.antt =====
-- src/slam_lua_func.c: the functions of the sockets and messages that a script is offered. Each gives
-- the number of results, and the states after it.
use slam.Base.{
  as_int, ℕ, ℤ, pos, Bool, true, false, Option, none, some, List, Run, ret, ◌>>=◌, ◌==◌,
  if◌then◌else◌,
}
use slam.Lua.Api.{Lua, Text, is_function}
use slam.Message.{Message}
use slam.System.{System}
use slam.IoThread.{IoThread, Setup}
use slam.IoThread.Interface.{newserver, newclient, closesocket, response}
use slam.Protocol.{Protocol, reg_message}
use slam.Protocol.Wire.{encode, load_descriptor}

-- SOCKET_CONNECT_TIMEOUT
abbrev pub socket_connect_timeout : ℕ
socket_connect_timeout = 5

-- whether there is a message
abbrev pub is_made : Option Message → Bool
is_made none = false
is_made (some m) = true

module _ {L F C W : Type 0} (lua : Lua L F C) (sys : System W Text) (setup : Setup) where
  -- `cc_newserver`
  unfoldable pub cc_newserver : L → W → IoThread → Run (ℕ × L × IoThread × W)
  unfolding newserver
  cc_newserver l w io =
      if lua.get_top l == 2
      then (if lua.is_string l (pos 1)
          then (if lua.is_number l (pos 2)
              then (let (address, l1) = lua.to_string l (pos 1) in
                  newserver sys setup w io address (as_int (lua.to_integer l1 (pos 2)))
                  >>= λ (fd, io', w'). ret (1, lua.push_integer l1 fd, io', w'))
              else ret (0, l, io, w))
          else ret (0, l, io, w))
      else ret (0, l, io, w)

  -- `cc_newclient`
  unfoldable pub cc_newclient : L → W → IoThread → Run (ℕ × L × IoThread × W)
  unfolding newclient
  cc_newclient l w io =
      if lua.get_top l == 2
      then (if lua.is_string l (pos 1)
          then (if lua.is_number l (pos 2)
              then (let (address, l1) = lua.to_string l (pos 1) in
                  newclient sys setup w io address (as_int (lua.to_integer l1 (pos 2)))
                    socket_connect_timeout
                  >>= λ (fd, io', w'). ret (1, lua.push_integer l1 fd, io', w'))
              else ret (0, l, io, w))
          else ret (0, l, io, w))
      else ret (0, l, io, w)

  -- `cc_response` from the checks on, for a descriptor that is not negative; the result of
  -- `slam_io_response` is not used.
  unfoldable pub respond :
      (L → ℤ → Option (List ℕ) × L) → L → W → IoThread → ℕ → ℤ → Run (ℕ × L × IoThread × W)
  respond builder_encode l w io fd msgid = encode builder_encode l fd msgid >>= λ (message, l1).
      elim message [
        | none ↦ ret (1, lua.push_boolean l1 false, io, w)
        | some m ↦ response sys setup w io m >>= λ (sent, io', w').
            ret (1, lua.push_boolean l1 true, io', w')
      ]

  -- `cc_closesocket`
  unfoldable pub cc_closesocket : L → W → IoThread → ℕ × L × W
  unfolding closesocket
  cc_closesocket l w io =
      if lua.get_top l == 1
      then (if lua.is_number l (pos 1)
          then (0, l, closesocket sys setup w io (as_int (lua.to_integer l (pos 1))))
          else (0, l, w))
      else (0, l, w)

module _ {L F C : Type 0} (lua : Lua L F C) where
  -- the end of `cc_bindmsg`: the function goes to the registry under the name, if there is one
  unfoldable pub bind_handler : L → Option Text → L
  bind_handler l none = lua.push_boolean l false
  bind_handler l (some ref_name) =
      lua.push_boolean
        (lua.set_table (lua.push_value (lua.push_string l ref_name) (pos 3)) lua.registry) true

module _ {L F C B : Type 0} (lua : Lua L F C) where
  -- `cc_loadmsg`
  unfoldable pub cc_loadmsg : (B → Text → Bool × B) → L → Protocol B Text → ℕ × L × Protocol B Text
  unfolding load_descriptor
  cc_loadmsg load l protocol =
      if lua.get_top l == 1
      then (if lua.is_string l (pos 1)
          then (let (filename, l1) = lua.to_string l (pos 1) in
              let (rc, protocol') = load_descriptor load protocol filename in
              (1, lua.push_boolean l1 rc, protocol'))
          else (0, l, protocol))
      else (0, l, protocol)

  -- `cc_bindmsg`
  unfoldable pub cc_bindmsg :
      (B → ℤ → Text → Bool × B) → L → Protocol B Text → ℕ × L × Protocol B Text
  unfolding reg_message bind_handler
  cc_bindmsg register l protocol =
      if lua.get_top l == 3
      then (if lua.is_number l (pos 1)
          then (if lua.is_string l (pos 2)
              then (if is_function lua l (pos 3)
                  then (let (typename, l1) = lua.to_string l (pos 2) in
                      let (name, protocol') =
                        reg_message register protocol (as_int (lua.to_integer l (pos 1)))
                          typename in
                      (1, bind_handler lua l1 name, protocol'))
                  else (0, l, protocol))
              else (0, l, protocol))
          else (0, l, protocol))
      else (0, l, protocol)
