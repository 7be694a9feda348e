-- ===== src/Sacio/Removal.antt =====
-- sac-fs/src/sacio.c: the removal of an empty directory, against the tree of directories on the disk.
use linuse_fs.Base.{
  ℕ, zero, suc, ◌*◌, ◌<◌, ◌≡◌, ◌≢◌, refl, ap, ◌∙◌, inl, inr, true, some, none, List, [], ◌∷◌, ◌++◌,
  arith, ltb, lt→ltb, Bool-cases, ◌==◌, eq→==,
}
use linuse_fs.Memory.{memcpy}
use linuse_fs.Platform.{Platform}
use linuse_fs.Disk.{Fs, Cmd, and_then, ok, total_blocks, ◌>>◌, read_block, node_table_blocks}
use linuse_fs.Bitmap.{free_block}
use linuse_fs.Node.{
  Node, get_block_num_from_node_num, block_to_node, read_node, unmap_and_destroy_node, delete_node,
}
use linuse_fs.Directory.Entry.{DirEntry}
use linuse_fs.Directory.Path.{last_component}
use linuse_fs.Directory.Update.{
  delete_directory_entry, delete_parent_entry, add_childs_to_list, free_pointers,
  delete_all_directory_entries,
}
use linuse_fs.Directory.Block.{lookup}
use linuse_fs.Directory.Entries.{erase}
use linuse_fs.Directory.Listed.{collected, iterate_pointers_blocks-collecting}
use linuse_fs.Directory.Scan.{IsSmallDirectory}
use linuse_fs.Directory.Tree.{
  Directory, Directories, HoldsTree, HoldsDirectory, HoldsDirectory-same, read_node-HoldsDirectory,
  unmap_and_destroy_node-stored_node, stored_node, node_block_below, node_block_of,
  first_data_block,
}
use linuse_fs.Directory.Visited.{HoldsTree-visited, HoldsDirectory-other, HoldsDirectory-node}
use linuse_fs.Directory.Erased.{
  AreDisjoint, set_directory, IsPending-visited, IsPending-stored_node,
  delete_directory_entry-IsPending,
}
use linuse_fs.Sacio.Tree.{delete_all}

module _ ⦃p : Platform⦄ where
  pub last_component-last :
      (cs : List (List ℕ)) (c : List ℕ) (s : Fs) → last_component (cs ++ (c ∷ [])) s ≡ ok c s
  unfolding last_component
  last_component-last [] c s = refl
  last_component-last (b ∷ []) c s = refl
  last_component-last (b ∷ b' ∷ cs) c s = last_component-last (b' ∷ cs) c s

  delete_parent_entry-steps :
      (s t : Fs) (e : DirEntry) (own above node : Node) (own_block parent_block : ℕ)
      → read_node e.node_num s ≡ ok (own, own_block) s
      → own.parent_block ≡ parent_block
      → ltb parent_block total_blocks ≡ true
      → block_to_node (s.disk parent_block) s ≡ ok above s
      → delete_directory_entry above e.name s ≡ ok node t
      → delete_parent_entry e s
        ≡ (unmap_and_destroy_node own own_block >> unmap_and_destroy_node node parent_block) t
  unfolding delete_parent_entry read_block
  delete_parent_entry-steps s t e own above node own_block parent_block read up below read' run =
      let below' : ltb own.parent_block total_blocks ≡ true =
        ap (λ b. ltb b total_blocks) up ∙ below in
      let above_read : block_to_node (s.disk own.parent_block) s ≡ ok above s =
        ap (λ b. block_to_node (s.disk b) s) up ∙ read' in
      rw (read, below', above_read, run)
        (ap (λ b. (unmap_and_destroy_node own own_block >> unmap_and_destroy_node node b) t) up)

  -- The entry of a directory is deleted from its parent.
  pub delete_parent_entry-HoldsTree :
      (s : Fs) (dirs : Directories) (e : DirEntry) (parent : ℕ) (d child : Directory)
      → e.name ≢ []
      → HoldsTree s dirs
      → AreDisjoint dirs
      → dirs parent ≡ some d
      → lookup e.name d.entries ≡ some e.node_num
      → dirs e.node_num ≡ some child
      → e.node_num ≢ parent
      → child.parent_block ≡ get_block_num_from_node_num parent
      → (t : Fs) × (delete_parent_entry e s ≡ ok tt t)
        × HoldsTree t
            (set_directory dirs parent (some (record d { entries = erase e.name d.entries })))
        × (t.bitmap ≡ s.bitmap)
  delete_parent_entry-HoldsTree s dirs e parent d child named tree disjoint here found there ne
        linked =
      let own = tree e.node_num child there in
      let above = tree parent d here in
      let d' : Directory = record d { entries = erase e.name d.entries } in
      let (node, t1, run, pending, bitmap, kept) =
        delete_directory_entry-IsPending s dirs parent e.node_num d e.name named tree disjoint here
          found above in
      let low : get_block_num_from_node_num e.node_num < first_data_block =
        omega (arith, node_block_of e.node_num own.inside, own.inside) in
      let own1 = pending.others e.node_num child ne there in
      let same : own1.node ≡ own.node =
        HoldsDirectory-node s t1 e.node_num child child own own1 (kept _ low) in
      let t2 = stored_node t1 e.node_num own1.node in
      let t3 = stored_node t2 parent node in
      let up : own.node.parent_block ≡ get_block_num_from_node_num parent = own.parent ∙ linked in
      (
        t3,
        delete_parent_entry-steps s t1 e own.node above.node node _ _
              (read_node-HoldsDirectory s e.node_num child own) up
              (node_block_below parent above.inside) above.read run
            ∙ rw
                (
                  ← same,
                  unmap_and_destroy_node-stored_node t1 e.node_num own1.node own.inside,
                  unmap_and_destroy_node-stored_node t2 parent node above.inside,
                )
                refl,
        IsPending-stored_node t2 dirs parent d' node
            (IsPending-visited t1 dirs parent e.node_num d' child node pending there own1),
        bitmap,
      )

  -- The children of a directory, which is read and written back, are added to a list.
  pub add_childs_to_list-collected :
      (s : Fs) (e : DirEntry) (d : Directory) (list : List DirEntry)
      → (holds : HoldsDirectory s e.node_num d)
      → add_childs_to_list list e s
        ≡ ok (list ++ collected (λ e. e) d.entries) (stored_node s e.node_num holds.node)
  unfolding add_childs_to_list
  add_childs_to_list-collected s e d list holds =
      let (last, run) =
        iterate_pointers_blocks-collecting (λ e. e) s holds.node d.entries list holds.small in
      rw
        (
          read_node-HoldsDirectory s e.node_num d holds,
          run,
          unmap_and_destroy_node-stored_node s e.node_num holds.node holds.inside,
        )
        refl

  free_pointers-none :
      (left : ℕ) (node : Node) (s : Fs)
      → node.indirect_pointer_block 0 ≡ 0
      → free_pointers left node 0 s ≡ ok tt s
  unfolding free_pointers
  free_pointers-none zero node s empty = refl
  free_pointers-none (suc left) node s empty = rw empty

  delete_all_directory_entries-empty :
      (s : Fs) (num : ℕ) (d : Directory)
      → d.entries ≡ []
      → (holds : HoldsDirectory s num d)
      → delete_all_directory_entries num s ≡ ok tt (stored_node s num holds.node)
  unfolding delete_all_directory_entries
  delete_all_directory_entries-empty s num d empty holds =
      let small : IsSmallDirectory s holds.node [] = rw empty at holds.small in
      let then_free : Node × ℕ → Cmd (Unit {0}) =
        λ (node, block). free_pointers 1000 node 0 >> unmap_and_destroy_node node block in
      let block = get_block_num_from_node_num num in
      ap (λ r. and_then r then_free) (read_node-HoldsDirectory s num d holds)
      ∙ ap (λ r. and_then r (λ u. unmap_and_destroy_node holds.node block))
          (free_pointers-none 1000 holds.node s small.stored)
      ∙ unmap_and_destroy_node-stored_node s num holds.node holds.inside

  -- A node without a name and a state.
  abbrev deleted : Node → Node
  deleted node = record node { file_name = memcpy node.file_name 0 (λ _. 0) 0 1; state = 0 }

  -- The disk with a node deleted and its block given back.
  abbrev without_node : Fs → ℕ → Node → Fs
  without_node s num node = record (stored_node s num (deleted node)) {
    bitmap = p.clean_bit s.bitmap (get_block_num_from_node_num num);
  }

  delete_node-HoldsDirectory :
      (s : Fs) (num : ℕ) (d : Directory)
      → ltb (get_block_num_from_node_num num) (8 * s.bitmap.size) ≡ true
      → (holds : HoldsDirectory s num d) → delete_node num s ≡ ok tt (without_node s num holds.node)
  unfolding delete_node free_block
  delete_node-HoldsDirectory s num d inside holds =
      rw
        (
          read_node-HoldsDirectory s num d holds,
          unmap_and_destroy_node-stored_node s num (deleted holds.node) holds.inside,
          inside,
        )
        refl

  without_node-HoldsTree :
      (s : Fs) (dirs : Directories) (num : ℕ) (node : Node)
      → num < node_table_blocks
      → HoldsTree s dirs
      → HoldsTree (without_node s num node) (set_directory dirs num none)
  without_node-HoldsTree s dirs num node inside tree o d at = elim (Bool-cases (o == num)) [
    | inl same ↦ absurd (cc (rw same at at))
    | inr n ↦
        HoldsDirectory-same (stored_node s num (deleted node)) (without_node s num node) o d refl
          (λ b behind own. refl)
          (HoldsDirectory-other s num o (deleted node) d inside (λ z. cc (n, eq→== o num z))
            (tree o d (rw n at at)))
  ]

  -- The last steps of the removal.
  pub delete_all-HoldsTree :
      (s : Fs) (dirs : Directories) (e : DirEntry) (d : Directory)
      → HoldsTree s dirs
      → dirs e.node_num ≡ some d
      → d.entries ≡ []
      → get_block_num_from_node_num e.node_num < 8 * s.bitmap.size
      → (t : Fs) × (delete_all (e ∷ []) s ≡ ok tt t)
        × HoldsTree t (set_directory dirs e.node_num none)
        × (t.bitmap ≡ p.clean_bit s.bitmap (get_block_num_from_node_num e.node_num))
  unfolding delete_all
  delete_all-HoldsTree s dirs e d tree at empty marked =
      let holds = tree e.node_num d at in
      let t = stored_node s e.node_num holds.node in
      let tree' = HoldsTree-visited s dirs e.node_num d tree at holds in
      let holds' = tree' e.node_num d at in
      (
        without_node t e.node_num holds'.node,
        rw
            (
              delete_all_directory_entries-empty s e.node_num d empty holds,
              delete_node-HoldsDirectory t e.node_num d (lt→ltb _ _ marked) holds',
            )
            refl,
        without_node-HoldsTree t dirs e.node_num holds'.node holds.inside tree',
        refl,
      )
