-- ===== src/Directory/Entry.antt =====
-- `t_dir_entry` and `t_data_position` of sac-fs/src/directory.h, and an entry read from a block.
use linuse_fs.Base.{
  ℕ, ◌+◌, ◌/◌, ◌%◌, Bool, true, false, ◌&&◌, ◌||◌, not, none, some, List, [], ◌∷◌, ltb, leb,
  if◌then◌else◌,
}
use linuse_fs.Memory.{Bytes, load, read_string}
use linuse_fs.Disk.{block_size, Cmd, pure, crash}
use linuse_fs.Node.{Node}

pub record DataPosition : Type 0 where
  pub pointer_block_num : ℕ
  pub block_num : ℕ
  pub byte_num : ℕ

pub record DirEntry : Type 0 where
  pub name : List ℕ
  pub node_num : ℕ
  pub position : DataPosition

-- An initialiser that sets `.name[0]` alone: all else is 0.
abbrev pub invalid_entry : DirEntry
invalid_entry = record {
  name = [];
  node_num = 0;
  position = record { pointer_block_num = 0; block_num = 0; byte_num = 0 };
}

abbrev pub root_entry : DirEntry
root_entry = record invalid_entry { name = b'/' ∷ [] }

abbrev pub is_valid_entry : DirEntry → Bool
is_valid_entry e = elim e.name [ [] ↦ false | c ∷ s ↦ true ]

unfoldable pub get_next_write_position : Node → DataPosition
get_next_write_position node =
    let total_block_num = node.file_size / block_size in
    record {
      pointer_block_num = total_block_num / 1024;
      block_num = total_block_num % 1024;
      byte_num = node.file_size % block_size;
    }

unfoldable pub next_byte : ℕ → ℕ → ℕ → Bool → Bool
next_byte pos min_limit max_limit is_last_block =
    leb pos min_limit || (ltb pos max_limit && not is_last_block)

-- Entry at byte `k` of a mapped block. Its name is copied into char[71].
unfoldable pub read_directory_entry : Bytes → ℕ → Cmd DirEntry
read_directory_entry b k =
    if ltb k block_size
    then (elim (read_string 71 b (k + 4)) [
      | none ↦ crash
      | some name ↦
          pure (record { name = name; node_num = load 4 b k; position = invalid_entry.position })
    ])
    else crash

-- What the iteration is given: it answers with an entry, and may collect values on the way.
abbrev pub Process : Type 0 → Type 0
Process A = DirEntry → A → DirEntry × A

unfoldable pub with_byte_num : DirEntry → ℕ → DirEntry
with_byte_num e k = record e { position = record (e.position) { byte_num = k } }

unfoldable pub with_block_num : DirEntry → ℕ → DirEntry
with_block_num e n = record e { position = record (e.position) { block_num = n } }

unfoldable pub with_pointer_block_num : DirEntry → ℕ → DirEntry
with_pointer_block_num e n = record e { position = record (e.position) { pointer_block_num = n } }
