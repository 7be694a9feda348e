-- ===== src/Tests/Tree.antt =====
-- Examples for the tree of directories: the root with "ab", which is empty, and "c", which holds an
-- entry "d".
use linuse_fs.Base.{
  ℕ, ◌+◌, ◌<◌, ◌≡◌, refl, none, some, List, [], ◌∷◌, arith, if◌then◌else◌, ◌==◌, inl, inr,
  Bool-cases, ==→eq,
}
use linuse_fs.Memory.{Bytes, memcpy, object_bytes, load, string_bytes, read_string}
use linuse_fs.Disk.{Fs}
use linuse_fs.Node.{Node, get_block_num_from_node_num}
use linuse_fs.Node.Blocks.{IsInRange, HasName}
use linuse_fs.Directory.Block.{HoldsEntries}
use linuse_fs.Directory.Scan.{IsSmallDirectory}
use linuse_fs.Directory.Tree.{Directory, Directories, HoldsTree, HasBlocks, stored_node}
use linuse_fs.Directory.Visited.{HoldsDirectory-stored_node, HoldsDirectory-other}
use linuse_fs.Directory.Erased.{AreDisjoint}
use linuse_fs.Sample.{unix}

abbrev pub ab : List ℕ
ab = b'a' ∷ b'b' ∷ []

abbrev pub c : List ℕ
c = b'c' ∷ []

abbrev pub d : List ℕ
d = b'd' ∷ []

abbrev zeros : Bytes
zeros = λ _. 0

-- One entry at byte `k`.
abbrev entry_at : ℕ → ℕ → List ℕ → ℕ → Bytes → Bytes
entry_at k num name len b =
    memcpy (memcpy b k (object_bytes num) 0 4) (k + 4) (string_bytes name) 0 len

abbrev pointer_to : ℕ → Bytes
pointer_to block = memcpy zeros 0 (object_bytes block) 0 4

abbrev pub data_disk : Fs
data_disk = record {
  disk = λ b.
      if b == 1_058
      then pointer_to 1_500
      else if b == 1_500
      then entry_at 128 4 c 1 (entry_at 0 3 ab 2 zeros)
      else if b == 1_060
      then pointer_to 1_510
      else if b == 1_510
      then entry_at 0 5 d 1 zeros
      else zeros;
  bitmap = record { bitarray = λ i. if i == 0 then 0xff else 0; size = 375 };
}

abbrev directory_node : List ℕ → ℕ → ℕ → ℕ → Node
directory_node name parent size pointer = record {
  state = 2;
  file_name = string_bytes name;
  parent_block = parent;
  file_size = size;
  creation_date = 0;
  modification_date = 0;
  indirect_pointer_block = λ i. if i == 0 then pointer else 0;
}

abbrev pub root_node : Node
root_node = directory_node (b'/' ∷ []) 0 256 1_058

abbrev ab_node : Node
ab_node = directory_node ab 2 0 0

abbrev c_node : Node
c_node = directory_node c 2 128 1_060

abbrev pub root_directory : Directory
root_directory = record {
  parent_block = 0;
  entries = (3, ab) ∷ (4, c) ∷ [];
  pointers_at = 1_058;
  entries_at = 1_500;
}

abbrev pub ab_directory : Directory
ab_directory = record { parent_block = 2; entries = []; pointers_at = 0; entries_at = 0 }

abbrev pub c_directory : Directory
c_directory = record {
  parent_block = 2;
  entries = (5, d) ∷ [];
  pointers_at = 1_060;
  entries_at = 1_510;
}

abbrev pub directories : Directories
directories n =
    if n == 0
    then some root_directory
    else if n == 3
    then some ab_directory
    else if n == 4
    then some c_directory
    else none

unfoldable pub disk1 : Fs
disk1 = stored_node data_disk 3 ab_node

unfoldable pub disk2 : Fs
disk2 = stored_node disk1 4 c_node

unfoldable pub tree_disk : Fs
tree_disk = stored_node disk2 0 root_node

range_of :
    (name : List ℕ) (parent size pointer : ℕ)
    → parent < 2_000
    → size < 5_000
    → pointer < 2_000
    → IsInRange (directory_node name parent size pointer)
range_of name parent size pointer h0 h1 h2 = record {
  state = omega arith;
  parent_block = omega arith;
  file_size = omega arith;
  creation_date = omega arith;
  modification_date = omega arith;
  pointers = λ i hi. ground arith;
}

abbrev root_bytes : Bytes
root_bytes = entry_at 128 4 c 1 (entry_at 0 3 ab 2 zeros)

root_bytes-HoldsEntries : HoldsEntries root_bytes 0 ((3, ab) ∷ (4, c) ∷ [])
unfolding load memcpy object_bytes string_bytes read_string
root_bytes-HoldsEntries = (refl, refl, (refl, refl, tt))

c_bytes-HoldsEntries : HoldsEntries (entry_at 0 5 d 1 zeros) 0 ((5, d) ∷ [])
unfolding load memcpy object_bytes string_bytes read_string
c_bytes-HoldsEntries = (refl, refl, tt)

pub root_small :
    IsSmallDirectory disk2 root_node root_directory.entries
    × HasBlocks disk2 root_node root_directory root_directory.entries
unfolding disk2 disk1 get_block_num_from_node_num load memcpy object_bytes
root_small = (
  record {
    state = refl;
    size = refl;
    few = omega arith;
    single = refl;
    stored = (omega arith, omega arith, omega arith, omega arith, root_bytes-HoldsEntries);
  },
  (refl, refl, omega arith, omega arith),
)

c_small :
    IsSmallDirectory disk1 c_node c_directory.entries
    × HasBlocks disk1 c_node c_directory c_directory.entries
unfolding disk1 get_block_num_from_node_num load memcpy object_bytes
c_small = (
  record {
    state = refl;
    size = refl;
    few = omega arith;
    single = refl;
    stored = (omega arith, omega arith, omega arith, omega arith, c_bytes-HoldsEntries);
  },
  (refl, refl, omega arith, omega arith),
)

ab_small : IsSmallDirectory data_disk ab_node []
ab_small = record { state = refl; size = refl; few = omega arith; single = refl; stored = refl }

names_fit : HasName root_node (b'/' ∷ []) × HasName ab_node ab × HasName c_node c
unfolding string_bytes read_string
names_fit = (refl, refl, refl)

pub HoldsTree-tree_disk : HoldsTree ⦃p = unix 4⦄ tree_disk directories
unfolding tree_disk disk2 disk1
HoldsTree-tree_disk num e at = elim (Bool-cases (num == 0)) [
  | inl h ↦
      let n : num ≡ 0 = ==→eq num 0 h in
      let f : root_directory ≡ e = cc (rw h at at) in
      rw (n, ← f)
        (HoldsDirectory-stored_node ⦃p = unix 4⦄ disk2 0 root_node (b'/' ∷ []) root_directory
          (omega arith) (range_of (b'/' ∷ []) 0 256 1_058 (omega arith) (omega arith) (omega arith))
          names_fit.0 refl root_small.0 root_small.1)
  | inr n0 ↦ elim (Bool-cases (num == 3)) [
    | inl h ↦
        let n : num ≡ 3 = ==→eq num 3 h in
        let f : ab_directory ≡ e = cc (rw (n0, h) at at) in
        rw (n, ← f)
          (HoldsDirectory-other ⦃p = unix 4⦄ disk2 0 3 root_node ab_directory (omega arith)
            (omega arith)
            (HoldsDirectory-other ⦃p = unix 4⦄ disk1 4 3 c_node ab_directory (omega arith)
              (omega arith)
              (HoldsDirectory-stored_node ⦃p = unix 4⦄ data_disk 3 ab_node ab ab_directory
                (omega arith) (range_of ab 2 0 0 (omega arith) (omega arith) (omega arith))
                names_fit.1 refl ab_small tt)))
    | inr n3 ↦ elim (Bool-cases (num == 4)) [
      | inl h ↦
          let n : num ≡ 4 = ==→eq num 4 h in
          let f : c_directory ≡ e = cc (rw (n0, n3, h) at at) in
          rw (n, ← f)
            (HoldsDirectory-other ⦃p = unix 4⦄ disk2 0 4 root_node c_directory (omega arith)
              (omega arith)
              (HoldsDirectory-stored_node ⦃p = unix 4⦄ disk1 4 c_node c c_directory (omega arith)
                (range_of c 2 128 1_060 (omega arith) (omega arith) (omega arith)) names_fit.2 refl
                c_small.0 c_small.1))
      | inr n4 ↦ absurd (cc (rw (n0, n3, n4) at at))
    ]
  ]
]

pub AreDisjoint-directories : AreDisjoint directories
AreDisjoint-directories a b d e ne at at' behind = ground arith

abbrev pub path_ab : List ℕ
path_ab = b'/' ∷ ab

abbrev pub path_c : List ℕ
path_c = b'/' ∷ c
