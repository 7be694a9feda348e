-- ===== src/Sacio/NewDirectory.antt =====
-- sac-fs/src/directory.c: a new directory, in the tree of directories on the disk.
use linuse_fs.Base.{
  ℕ, ◌+◌, ◌-◌, ◌*◌, ◌%◌, ◌^◌, ◌≤◌, ◌<◌, ◌≡◌, ◌≢◌, refl, ap, sym, subst, fun_ext, inl, inr, some,
  none, Option, List, [], arith, length, lt→ltb, ne→==, Bool-cases, ◌==◌,
}
use linuse_fs.Memory.{strcpy}
use linuse_fs.Memory.Laws.{read_string-strcpy}
use linuse_fs.Package.Copies.{IsString}
use linuse_fs.Platform.{Platform, BitLaws}
use linuse_fs.Disk.{Fs, ok, node_table_blocks, node_table_initial_block}
use linuse_fs.Bitmap.{get_free_node_block}
use linuse_fs.Bitmap.Alloc.{IsFirstFree, IsMarked, get_free_block_lem}
use linuse_fs.Node.{Node, get_block_num_from_node_num, create_node}
use linuse_fs.Node.Blocks.{IsInRange, HasName}
use linuse_fs.Directory.Update.{
  create_dir_node, create_and_save_dir_node, create_dir_node_and_add_entry,
}
use linuse_fs.Directory.Scan.{IsSmallDirectory}
use linuse_fs.Directory.Tree.{
  Directory, Directories, HoldsTree, HoldsDirectory, unmap_and_destroy_node-stored_node,
  write_block-stored_node, stored_node, node_block_of,
}
use linuse_fs.Directory.Erased.{AreDisjoint, IsPending, set_directory}
use linuse_fs.Directory.Grown.{
  with_child, add_directory_entry-IsPending, HoldsTree-IsPending, IsPending-bitmap,
}
use linuse_fs.Directory.Fresh.{IsPending-new, set_directory-AreDisjoint}

-- A new directory: its parent's block is known, and it has no entries and no blocks.
abbrev pub empty_directory : ℕ → Directory
empty_directory parent = record {
  parent_block = get_block_num_from_node_num parent;
  entries = [];
  pointers_at = 0;
  entries_at = 0;
}

-- The directories with a new one, `num`, that `name` names in the directory `parent`.
abbrev pub with_new_child : Directories → ℕ → Directory → List ℕ → ℕ → Directories
with_new_child dirs parent d name num =
    set_directory (set_directory dirs num (some (empty_directory parent))) parent
      (some (with_child d num name))

set_directory_twice :
    (dirs : Directories) (num : ℕ) (e : Option Directory)
    → set_directory (set_directory dirs num e) num e ≡ set_directory dirs num e
set_directory_twice dirs num e =
    fun_ext λ o. elim (Bool-cases (o == num)) [ inl h ↦ rw h | inr h ↦ rw h ]

module _ ⦃p : Platform⦄ where
  -- The node of a new directory.
  abbrev new_node : List ℕ → ℕ → Node
  new_node name parent = record {
    state = 2;
    file_name = strcpy p.garbage name;
    parent_block = get_block_num_from_node_num parent;
    file_size = 0;
    creation_date = p.now;
    modification_date = p.now;
    indirect_pointer_block = λ _. 0;
  }

  create_and_save_dir_node-stored_node :
      (s : Fs) (name : List ℕ) (parent num : ℕ)
      → length name < 71
      → num < node_table_blocks
      → create_and_save_dir_node name parent (get_block_num_from_node_num num) s
        ≡ ok tt (stored_node (stored_node s num (new_node name parent)) num (new_node name parent))
  unfolding create_and_save_dir_node create_dir_node create_node
  create_and_save_dir_node-stored_node s name parent num short inside =
      let node = new_node name parent in
      rw
        (
          lt→ltb (length name) 71 short,
          write_block-stored_node s num node inside,
          unmap_and_destroy_node-stored_node (stored_node s num node) num node inside,
        )
        refl

  new_node-IsInRange :
      (name : List ℕ) (parent : ℕ)
      → parent < node_table_blocks
      → p.now < 2 ^ 64
      → IsInRange (new_node name parent)
  new_node-IsInRange name parent inside clock = record {
    state = omega arith;
    parent_block = omega (arith, node_block_of parent inside);
    file_size = omega arith;
    creation_date = clock;
    modification_date = clock;
    pointers = λ i hi. omega arith;
  }

  -- The node of a new directory is stored, under a number that is free.
  new_node-IsPending :
      (s : Fs) (dirs : Directories) (parent num : ℕ) (d : Directory) (node : Node) (name : List ℕ)
      → IsPending s dirs parent d node
      → num ≢ parent
      → num < node_table_blocks
      → p.now < 2 ^ 64
      → IsString name
      → length name < 71
      → IsPending
          (stored_node (stored_node s num (new_node name parent)) num (new_node name parent))
          (set_directory dirs num (some (empty_directory parent)))
          parent
          d
          node
  new_node-IsPending s dirs parent num d node name pending ne inside clock string short =
      let e = empty_directory parent in
      let new = new_node name parent in
      let range = new_node-IsInRange name parent pending.inside clock in
      let has_name : HasName new name = read_string-strcpy 71 p.garbage name string short in
      let small : (s : Fs) → IsSmallDirectory s new [] = λ s. record {
        state = refl;
        size = refl;
        few = omega arith;
        single = refl;
        stored = refl;
      } in
      let t = stored_node s num new in
      let first =
        IsPending-new s dirs parent num d e node new name pending ne inside range has_name refl refl
          (small s) in
      subst (λ dirs. IsPending (stored_node t num new) dirs parent d node)
        (set_directory_twice dirs num (some e))
        (IsPending-new t (set_directory dirs num (some e)) parent num d e node new name first ne
          inside range has_name refl refl (small t))

  pub create_dir_node_and_add_entry-IsPending :
      (laws : BitLaws p) (s : Fs) (dirs : Directories) (parent num : ℕ) (d : Directory)
      (name : List ℕ)
      → HoldsTree s dirs
      → AreDisjoint dirs
      → dirs parent ≡ some d
      → dirs num ≡ none
      → num < node_table_blocks
      → IsFirstFree s.bitmap node_table_initial_block (get_block_num_from_node_num num)
      → node_table_initial_block + node_table_blocks ≤ 8 * s.bitmap.size
      → p.now < 2 ^ 64
      → 0 < length d.entries
      → length d.entries < 31
      → IsString name
      → length name < 71
      → (holds : HoldsDirectory s parent d)
      → (node : Node) × (t : Fs) × (create_dir_node_and_add_entry holds.node parent name s
          ≡ ok node t)
        × IsPending t
            (set_directory dirs num (some (empty_directory parent)))
            parent
            (with_child d num name)
            node
        × IsMarked s.bitmap (get_block_num_from_node_num num) t.bitmap
  unfolding create_dir_node_and_add_entry get_free_node_block
  create_dir_node_and_add_entry-IsPending laws s dirs parent num d name tree disjoint here fresh
        inside first_free large clock more few string short holds =
      let block = get_block_num_from_node_num num in
      let block_is = node_block_of num inside in
      let e = empty_directory parent in
      let dirs' = set_directory dirs num (some e) in
      let ne : num ≢ parent = λ z. cc (ap dirs z, here, fresh) in
      let (b, taken, marked) =
        get_free_block_lem laws node_table_initial_block
          (node_table_initial_block + node_table_blocks) block s first_free
          (omega (arith, block_is)) large in
      let s1 : Fs = record s { bitmap = b } in
      let pending1 =
        IsPending-bitmap s b dirs parent d holds.node
          (HoldsTree-IsPending s dirs parent d tree holds) in
      let pending2 =
        new_node-IsPending s1 dirs parent num d holds.node name pending1 ne inside clock string
          short in
      let s2 = stored_node (stored_node s1 num (new_node name parent)) num (new_node name parent) in
      let here' : dirs' parent ≡ some d = rw (ne→== parent num (λ z. ne (sym z))) here in
      let (node, t, run, pending, bitmap) =
        add_directory_entry-IsPending s2 dirs' parent num d holds.node name pending2
          (set_directory-AreDisjoint dirs num e refl refl disjoint) here' more few (omega arith)
          string short in
      let number : (block + 2 ^ 16 - node_table_initial_block) % 2 ^ 16 ≡ num =
        omega (arith, block_is) in
      (
        node,
        t,
        rw
            (
              taken,
              create_and_save_dir_node-stored_node s1 name parent num short inside,
              number,
              run,
            )
            refl,
        pending,
        rw bitmap marked,
      )
