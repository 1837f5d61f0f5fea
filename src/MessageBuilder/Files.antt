-- ===== src/MessageBuilder/Files.antt =====
-- src/MessageBuilder/MessageParser.cpp: the walk over the files of a folder, and which .proto files are
-- loaded. The files are those of the system, an argument, and so is what protobuf's importer does.
use slam.Base.{
  ℕ, zero, suc, ◌/◌, ◌%◌, Bool, true, false, not, ◌&&◌, Option, none, some, List, [], ◌∷◌, ◌++◌,
  Run, ret, fault, stuck, ◌==◌,
}
use slam.Lua.Api.{Text, text}
use slam.Lua.Names.{path_max, printed, same_word, last_dot}

-- `struct dirent`
pub record DirEntry : Type 0 where
  pub d_name : Text
  pub d_type : ℕ

-- `stat` with `S_ISDIR`, and what `readdir` gives of a folder that `opendir` opens, if it does
pub record Files : Type 0 where
  pub is_dir : Text → Bool
  pub entries : Text → Option (List DirEntry)

-- a name that is passed by: it begins with a dot, or has another suffix than the one asked for
abbrev pub is_hidden : Text → Bool
is_hidden [] = false
is_hidden (c ∷ s) = c == 46

abbrev pub has_suffix : Text → Option (Text × Text) → Bool
has_suffix suffix none = false
has_suffix suffix (some (before, rest)) = same_word rest suffix

abbrev pub is_chosen : Option Text → Text → Bool
is_chosen none name = not (is_hidden name)
is_chosen (some suffix) name = not (is_hidden name) && has_suffix suffix (last_dot name)

-- `d_type & DT_DIR`
abbrev pub is_folder : DirEntry → Bool
is_folder entry = entry.d_type / 4 % 2 == 1

abbrev pub fullname : Text → DirEntry → Text
fullname folder entry = printed path_max (folder ++ (text "/" ++ entry.d_name))

module _ {B : Type 0} (files : Files) (callback : B → Text → Bool × B) where
  -- the `while` of `traverseDirectory`, over what is left of the folder: `into` is its call of itself.
  unfoldable pub visit :
      (Text → B → Run (Bool × B)) → Text → Option Text → List DirEntry → B → Run (Bool × B)
  visit into folder filter_suffix [] b = ret (true, b)
  visit into folder filter_suffix (entry ∷ entries) b =
      elim (is_chosen filter_suffix entry.d_name) [
        | false ↦ visit into folder filter_suffix entries b
        | true ↦ elim (is_folder entry) [
          | true ↦ into (fullname folder entry) b
          | false ↦
              let (rc, b') = callback b (fullname folder entry) in
              elim rc [
                | true ↦ visit into folder filter_suffix entries b'
                | false ↦ ret (false, b')
              ]
        ]
      ]

  -- `traverseDirectory`; the fuel bounds how deep folders lie in folders.
  unfoldable pub traverse_directory : ℕ → Text → Option Text → B → Run (Bool × B)
  unfolding visit
  traverse_directory zero folder filter_suffix b = stuck
  traverse_directory (suc fuel) folder filter_suffix b = elim (files.is_dir folder) [
    | false ↦ ret (callback b folder)
    | true ↦ elim (files.entries folder) [
      | none ↦ fault
      | some entries ↦
          visit (λ name b'. traverse_directory fuel name filter_suffix b') folder filter_suffix
            entries b
    ]
  ]

  -- `LoadMessageDescriptor`, where the callback is `ParseProtoFile`
  unfoldable pub load_message_descriptor : ℕ → Text → B → Run (Bool × B)
  unfolding traverse_directory
  load_message_descriptor fuel filename b =
      traverse_directory fuel filename (some (text ".proto")) b
