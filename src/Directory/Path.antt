-- ===== src/Directory/Path.antt =====
-- Paths: their components, and the walk from the root.
use linuse_fs.Base.{ℕ, ◌-◌, Bool, ◌&&◌, ◌||◌, not, List, [], ◌∷◌, ◌==◌, if◌then◌else◌, length}
use linuse_fs.Platform.{Platform, slash}
use linuse_fs.Disk.{Cmd, pure, crash, ◌>>=◌, ◌>>◌}
use linuse_fs.Node.{read_node, unmap_and_destroy_node}
use linuse_fs.Directory.Entry.{DirEntry, root_entry, is_valid_entry}
use linuse_fs.Directory.Iterate.{get_entry}

module _ ⦃p : Platform⦄ where
  unfoldable pub is_valid_path : List ℕ → Bool
  is_valid_path path =
      not (p.string_is_empty path)
      && p.string_starts_with path slash
      && (length path == 1 || not (p.string_ends_with path slash))

  unfoldable pub walk : List (List ℕ) → DirEntry → Cmd DirEntry
  unfolding read_node get_entry unmap_and_destroy_node
  walk [] entry = pure entry
  walk (component ∷ rest) entry =
      if is_valid_entry entry
      then (do
        (node, node_block) ← read_node entry.node_num
        entry' ← get_entry node component
        unmap_and_destroy_node node node_block
        walk rest entry')
      else pure entry

  unfoldable pub search_path : List ℕ → Cmd DirEntry
  unfolding walk
  search_path path = walk (p.string_split path slash) root_entry

  -- The last component of a path; with no component the code reads the element before the first.
  unfoldable pub last_component : List (List ℕ) → Cmd (List ℕ)
  last_component [] = crash
  last_component (c ∷ []) = pure c
  last_component (c ∷ d ∷ cs) = last_component (d ∷ cs)

  unfoldable pub get_new_dir_name_from_path : List ℕ → Cmd (List ℕ)
  unfolding last_component
  get_new_dir_name_from_path path = last_component (p.string_split path slash)

  unfoldable pub get_pre_dir_path_from_path : List ℕ → List ℕ → List ℕ
  get_pre_dir_path_from_path path new_dir_name =
      p.string_substring_until path (length path - length new_dir_name)

  -- The callback adds each entry to the list, and goes on.

  unfoldable pub get_folder_path_from_file_path : List ℕ → Cmd (List ℕ)
  unfolding last_component
  get_folder_path_from_file_path file_path = do
    name ← last_component (p.string_split file_path slash)
    pure (p.string_substring_until file_path (length file_path - length name - 1))

  unfoldable pub get_file_name_from_file_path : List ℕ → Cmd (List ℕ)
  unfolding last_component
  get_file_name_from_file_path file_path = last_component (p.string_split file_path slash)
