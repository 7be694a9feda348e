-- ===== src/Tests/Removals.antt =====
-- Examples for directories: the walk along a path, listing, deletion and removal.
use linuse_fs.Base.{ℕ, ◌≡◌, ◌≢◌, refl, some, [], ◌∷◌, arith, str_eq}
use linuse_fs.Disk.{Fs, ok}
use linuse_fs.Node.{Node, get_block_num_from_node_num}
use linuse_fs.Directory.Block.{entries_block, number_of}
use linuse_fs.Directory.Scan.{IsSmallDirectory}
use linuse_fs.Directory.Tree.{HoldsTree}
use linuse_fs.Sample.{unix, split}
use linuse_fs.Status.{success, not_empty}
use linuse_fs.Directory.Entry.{DirEntry}
use linuse_fs.Directory.Path.{is_valid_path, search_path}
use linuse_fs.Directory.Update.{delete_directory_entry}
use linuse_fs.Directory.Deleted.{KeepsNode, delete_directory_entry-erase}
use linuse_fs.Directory.Walk.{OnlyRead, resolve, search_path-resolve}
use linuse_fs.Sacio.Tree.{sac_readdir, sac_rmdir}
use linuse_fs.Sacio.Listing.{sac_readdir-names}
use linuse_fs.Sacio.Rmdir.{without_child, sac_rmdir-without_child, sac_rmdir-not_empty}
use linuse_fs.Tests.Tree.{
  ab, c, d, root_node, root_directory, ab_directory, c_directory, directories, path_ab, path_c,
  disk1, disk2, tree_disk, root_small, HoldsTree-tree_disk, AreDisjoint-directories,
}

delete_directory_entry-erase_example :
    (node' : Node) × (t : Fs) × (delete_directory_entry root_node ab disk2 ≡ ok node' t)
    × IsSmallDirectory t node' ((4, c) ∷ [])
    × KeepsNode root_node node'
    × (t.bitmap ≡ disk2.bitmap)
    × ((b : ℕ) → b ≢ entries_block disk2 root_node → t.disk b ≡ disk2.disk b)
unfolding str_eq
delete_directory_entry-erase_example =
    delete_directory_entry-erase ab (λ e. absurd (cc e)) disk2 root_node root_directory.entries
      root_small.0

search_path-resolve_example :
    (e : DirEntry) × (t : Fs) × (search_path ⦃p = unix 4⦄ path_c tree_disk ≡ ok e t)
    × (number_of e ≡ some 4)
    × OnlyRead ⦃p = unix 4⦄ directories tree_disk t
unfolding split resolve str_eq
search_path-resolve_example =
    search_path-resolve ⦃p = unix 4⦄ path_c tree_disk directories (some 4)
      ((λ e. absurd (cc e)), tt) HoldsTree-tree_disk refl

sac_readdir-names_example :
    (t : Fs) × (sac_readdir ⦃p = unix 4⦄ path_c tree_disk ≡ ok (some (d ∷ [])) t)
    × OnlyRead ⦃p = unix 4⦄ directories tree_disk t
unfolding is_valid_path split resolve str_eq
sac_readdir-names_example =
    sac_readdir-names ⦃p = unix 4⦄ path_c tree_disk directories 4 c_directory refl
      ((λ e. absurd (cc e)), tt) HoldsTree-tree_disk refl refl

sac_rmdir-without_child_example :
    (t : Fs) × (sac_rmdir ⦃p = unix 4⦄ path_ab tree_disk ≡ ok success t)
    × HoldsTree ⦃p = unix 4⦄ t (without_child directories 0 root_directory ab 3)
    × (t.bitmap ≡ (unix 4).clean_bit tree_disk.bitmap (get_block_num_from_node_num 3))
unfolding is_valid_path split resolve str_eq get_block_num_from_node_num tree_disk disk2 disk1
sac_rmdir-without_child_example =
    sac_rmdir-without_child ⦃p = unix 4⦄ path_ab [] ab tree_disk directories 0 3 root_directory
      ab_directory refl refl ((λ e. absurd (cc e)), tt) HoldsTree-tree_disk AreDisjoint-directories
      refl refl refl refl refl refl (omega arith) (omega arith)

sac_rmdir-not_empty_example :
    (t : Fs) × (sac_rmdir ⦃p = unix 4⦄ path_c tree_disk ≡ ok not_empty t)
    × OnlyRead ⦃p = unix 4⦄ directories tree_disk t
unfolding is_valid_path split resolve str_eq
sac_rmdir-not_empty_example =
    sac_rmdir-not_empty ⦃p = unix 4⦄ path_c [] c tree_disk directories 0 4 root_directory
      c_directory refl refl ((λ e. absurd (cc e)), tt) HoldsTree-tree_disk refl refl refl refl
      (omega arith)
