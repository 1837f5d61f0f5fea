-- ===== src/MessageBuilder/Loading.antt =====
-- Which files src/MessageBuilder/MessageParser.cpp loads of a folder.
use slam.Base.{
  ℕ, suc, ◌≡◌, refl, Bool, true, false, Option, none, some, List, [], ◌∷◌, Run, ret, Bool-cases,
  inl, inr,
}
use slam.Lua.Api.{Text, text}
use slam.MessageBuilder.Files.{
  DirEntry, Files, is_chosen, is_folder, fullname, visit, traverse_directory,
  load_message_descriptor,
}

-- the files ahead of the first folder, of the entries that are chosen, and that folder
unfoldable pub ahead : Text → Option Text → List DirEntry → List Text × Option Text
ahead folder filter_suffix [] = ([], none)
ahead folder filter_suffix (entry ∷ entries) =
    let rest = ahead folder filter_suffix entries in
    elim (is_chosen filter_suffix entry.d_name) [
      | false ↦ rest
      | true ↦ elim (is_folder entry) [
        | true ↦ ([], some (fullname folder entry))
        | false ↦ (fullname folder entry ∷ rest.0, rest.1)
      ]
    ]

module _ {B : Type 0} where
  -- loads files up to the first that fails
  unfoldable pub load : (B → Text → Bool × B) → List Text → B → Bool × B
  load callback [] b = (true, b)
  load callback (name ∷ names) b =
      let (rc, b') = callback b name in
      elim rc [ true ↦ load callback names b' | false ↦ (false, b') ]

  -- goes on into a folder, if there is one and nothing failed
  unfoldable pub go_on : (Text → B → Run (Bool × B)) → Option Text → Bool × B → Run (Bool × B)
  go_on into folder (false, b) = ret (false, b)
  go_on into none (true, b) = ret (true, b)
  go_on into (some folder) (true, b) = into folder b

module _ {B : Type 0} (files : Files) (callback : B → Text → Bool × B) where
  visit_lem :
      (into : Text → B → Run (Bool × B)) (folder : Text) (filter_suffix : Option Text)
      (entries : List DirEntry) (b : B)
      → visit files callback into folder filter_suffix entries b
        ≡ go_on into
            (ahead folder filter_suffix entries).1
            (load callback (ahead folder filter_suffix entries).0 b)
  unfolding visit ahead load go_on
  visit_lem into folder filter_suffix [] b = refl
  visit_lem into folder filter_suffix (entry ∷ entries) b =
      elim (Bool-cases (is_chosen filter_suffix entry.d_name)) [
        | inr c ↦ rw (visit, ahead, c) (visit_lem into folder filter_suffix entries b)
        | inl c ↦ elim (Bool-cases (is_folder entry)) [
          | inl d ↦ rw (visit, ahead, c, d) refl
          | inr d ↦
              let (rc, b') = callback b (fullname folder entry) in
              elim (Bool-cases rc) [
                | inl e ↦
                    rw (visit, ahead, c, d, load, e)
                      (visit_lem into folder filter_suffix entries b')
                | inr e ↦ rw (visit, ahead, c, d, load, e) refl
              ]
        ]
      ]

  -- Of a folder with given entries, the .proto files ahead of the first folder whose name ends in .proto
  -- are loaded in their order, up to the first that fails; then that folder is gone into, and nothing
  -- behind it is loaded.
  pub load_message_descriptor_lem :
      (fuel : ℕ) (folder : Text) (entries : List DirEntry) (b : B)
      → files.is_dir folder ≡ true
      → files.entries folder ≡ some entries
      → load_message_descriptor files callback (suc fuel) folder b
        ≡ go_on
            (λ name b'. load_message_descriptor files callback fuel name b')
            (ahead folder (some (text ".proto")) entries).1
            (load callback (ahead folder (some (text ".proto")) entries).0 b)
  unfolding load_message_descriptor traverse_directory
  load_message_descriptor_lem fuel folder entries b e1 e2 =
      rw (traverse_directory, e1, e2)
        (visit_lem
          (λ name b'. traverse_directory files callback fuel name (some (text ".proto")) b') folder
          (some (text ".proto")) entries b)
