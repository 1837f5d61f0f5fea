-- ===== src/Protocol/Tests.antt =====
-- Each theorem on the table of src/slam_protocol.c at a concrete input.
use slam.Base.{
  ◌≡◌, refl, true, Bool, Option, none, some, List, [], ◌∷◌, ℤ, pos, replicate, length,
  length-replicate, length-set, set, ◌∙◌, arith,
}
use slam.Protocol.{Protocol, max_message_id, find_name, message_ref_name, reg_message}
use slam.Lua.Api.{Text, text}
use slam.Protocol.Table.{reg_message_lem}

-- MessageBuilder takes any id, and its state is the list of the ids.
abbrev register : List ℤ → ℤ → Text → Bool × List ℤ
register ids id typename = (true, id ∷ ids)

abbrev table : Protocol (List ℤ) Text
table = record {
  regtable = set (replicate max_message_id none) 2 (some (text "Login.2"));
  builder = [];
}

name_test : message_ref_name (pos 1024) (text "Move") ≡ text "Move.1024"
unfolding message_ref_name
name_test = refl

reg_message_lem_example :
    (p' : Protocol (List ℤ) Text) × (reg_message register table (pos 1) (text "Move")
      ≡ (some (message_ref_name (pos 1) (text "Move")), p'))
    × (length p'.regtable ≡ max_message_id)
    × (find_name p' (pos 1) ≡ some (message_ref_name (pos 1) (text "Move")))
    × (find_name p' (pos 2) ≡ find_name table (pos 2))
unfolding find_name
reg_message_lem_example =
    reg_message_lem register table 1 2 (text "Move") (pos 1 ∷ [])
      (length-set {A = Option Text} (replicate max_message_id none) 2 (some (text "Login.2"))
        ∙ length-replicate {A = Option Text} max_message_id none)
      (omega arith) (λ e. omega arith) refl refl
