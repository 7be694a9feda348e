-- ===== src/Directory/Listed.antt =====
-- The iteration with a callback that collects what it is given and never answers with an entry, as
-- those of `sac_readdir` and `add_childs_to_list` do.
use linuse_fs.Base.{ℕ, ◌+◌, ◌-◌, ◌^◌, ◌≡◌, sym, ap, ◌∙◌, List, [], ◌∷◌, ◌++◌}
use mathlib.Core.List.{append_assoc, append-nil}
use linuse_fs.Disk.{Fs, ok}
use linuse_fs.Node.{Node}
use linuse_fs.Directory.Entry.{DirEntry, invalid_entry, Process, with_pointer_block_num}
use linuse_fs.Directory.Iterate.{iterate_pointers_blocks}
use linuse_fs.Directory.Block.{entries_block}
use linuse_fs.Directory.Scan.{
  entry_of, IsSmallDirectory, scan, placed, iterate_pointers_blocks-scan,
  iterate_pointers_blocks-empty,
}

module _ {A : Type 0} (f : DirEntry → A) where
  -- The callback.
  abbrev pub collecting : Process (List A)
  collecting e l = (invalid_entry, l ++ (f e ∷ []))

  -- What it collects.
  abbrev pub collected : List (ℕ × List ℕ) → List A
  collected [] = []
  collected ((num, name) ∷ es) = f (entry_of num name) ∷ collected es

  scan-collecting :
      (es : List (ℕ × List ℕ)) (k : ℕ) (acc : List A)
      → (scan collecting es k invalid_entry acc).1 ≡ acc ++ collected es
  unfolding scan
  scan-collecting [] k acc = sym (append-nil acc)
  scan-collecting ((num, name) ∷ es) k acc =
      scan-collecting es (k + 128) (acc ++ (f (entry_of num name) ∷ []))
      ∙ append_assoc acc (f (entry_of num name) ∷ []) (collected es)

  -- All entries of a directory with fewer than 32 are collected, in their order.
  pub iterate_pointers_blocks-collecting :
      (s : Fs) (node : Node) (es : List (ℕ × List ℕ)) (acc : List A)
      → IsSmallDirectory s node es
      → (e : DirEntry) × (iterate_pointers_blocks collecting node acc s
          ≡ ok (e, acc ++ collected es) s)
  iterate_pointers_blocks-collecting s node [] acc small = (
    with_pointer_block_num invalid_entry (2 ^ 32 - 1),
    iterate_pointers_blocks-empty collecting s node acc small
        ∙ ap (λ l. ok (with_pointer_block_num invalid_entry (2 ^ 32 - 1), l) s)
            (sym (append-nil acc)),
  )
  iterate_pointers_blocks-collecting s node (e ∷ es) acc small =
      let (last, l) =
        placed collecting (entries_block s node) (scan collecting (e ∷ es) 0 invalid_entry acc) in
      (
        last,
        iterate_pointers_blocks-scan collecting s node e es acc small
            ∙ ap (λ l. ok (last, l) s) (scan-collecting (e ∷ es) 0 acc),
      )
