-- ===== src/Lua/PrintingTests.antt =====
-- Runs of the printing in src/slam_lua.c.
use slam.Base.{◌≡◌, refl, true, [], ◌∷◌, ret}
use slam.Lua.Api.{text, Kind}
use slam.Lua.Sample.{lists, truth, table}
use slam.Lua.Printing.{Line, tracestack, dump_root_table}

traced :
    (tracestack lists (truth true ∷ table ∷ [])).0
    ≡ Line.stack_height 2
      ∷ Line.on_stack (text "[table]") Kind.table
      ∷ Line.on_stack (text "[true]") Kind.boolean
      ∷ []
unfolding tracestack
traced = refl

-- An empty table
dumped :
    dump_root_table lists (λ s t. true) (λ s. s) 1 []
    ≡ ret (Line.title (text "dump root table") ∷ Line.opening [] ∷ Line.closing [] ∷ [], [])
unfolding dump_root_table
dumped = refl
