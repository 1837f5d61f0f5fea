-- ===== src/MessageBuilder/LoadingTests.antt =====
-- The loading of .proto files by src/MessageBuilder/MessageParser.cpp on a concrete folder.
use slam.Base.{ℕ, ◌≡◌, refl, Bool, true, some, List, [], ◌∷◌, ret, if◌then◌else◌}
use slam.Lua.Api.{Text, text}
use slam.Lua.Names.{same_word, last_dot}
use slam.MessageBuilder.Files.{DirEntry, Files, load_message_descriptor}
use slam.MessageBuilder.Loading.{ahead, load, go_on, load_message_descriptor_lem}

-- DT_DIR and DT_REG
abbrev folder_type : ℕ
folder_type = 4

abbrev file_type : ℕ
file_type = 8

abbrev protos : List DirEntry
protos =
    record { d_name = text ".git"; d_type = folder_type }
    ∷ record { d_name = text "old"; d_type = folder_type }
    ∷ record { d_name = text "a.proto"; d_type = file_type }
    ∷ record { d_name = text "readme.md"; d_type = file_type }
    ∷ record { d_name = text "sub.proto"; d_type = folder_type }
    ∷ record { d_name = text "b.proto"; d_type = file_type }
    ∷ []

-- one folder with these entries, and every other one empty
abbrev tree : Files
tree = record {
  is_dir = λ name. true;
  entries = λ name. if same_word name (text "p") then some protos else some [];
}

-- keeps the names that are loaded, the last one first
abbrev note : List Text → Text → Bool × List Text
note names name = (true, name ∷ names)

-- b.proto is not loaded.
load_test : load_message_descriptor tree note 2 (text "p") [] ≡ ret (true, text "p/a.proto" ∷ [])
unfolding load_message_descriptor same_word last_dot
load_test = refl

load_message_descriptor_lem_example :
    load_message_descriptor tree note 2 (text "p") []
    ≡ go_on
        (λ name b. load_message_descriptor tree note 1 name b)
        (some (text "p/sub.proto"))
        (true, text "p/a.proto" ∷ [])
unfolding ahead load same_word last_dot
load_message_descriptor_lem_example =
    load_message_descriptor_lem tree note 1 (text "p") protos [] refl refl
