-- ===== src/Directory/Walk.antt =====
-- The walk along a path, against the tree of directories that the disk holds.
use linuse_fs.Base.{
  ℕ, ◌≤◌, ◌≡◌, ◌≢◌, refl, sym, ap, ◌∙◌, inl, inr, true, false, Option, none, some, List, [], ◌∷◌,
  ◌++◌, All, Bool-cases, Option-cases,
}
use linuse_fs.Platform.{Platform, slash}
use linuse_fs.Disk.{Fs, ok}
use linuse_fs.Directory.Entry.{DirEntry, root_entry, is_valid_entry}
use linuse_fs.Directory.Iterate.{get_entry}
use linuse_fs.Directory.Path.{walk, search_path}
use linuse_fs.Directory.Block.{lookup, number_of}
use linuse_fs.Directory.Found.{get_entry-small}
use linuse_fs.Directory.Tree.{
  Directory, Directories, HoldsDirectory, HoldsTree, first_data_block, stored_node,
  read_node-HoldsDirectory, unmap_and_destroy_node-stored_node,
}
use linuse_fs.Directory.Visited.{stored_node-kept, HoldsTree-visited}

-- The node number that a path leads to from a directory, if there is one; `none` if the path passes
-- something that is no directory.
unfoldable pub resolve : Directories → List (List ℕ) → ℕ → Option (Option ℕ)
resolve dirs [] num = some (some num)
resolve dirs (c ∷ cs) num = elim (dirs num) [
  | none ↦ none
  | some d ↦ elim (lookup c d.entries) [ none ↦ some none | some child ↦ resolve dirs cs child ]
]

module _ ⦃p : Platform⦄ where
  -- The tree, the bitmap and the blocks behind the node table are as they were.
  pub record OnlyRead (dirs : Directories) (s t : Fs) : Type 0 where
    pub tree : HoldsTree t dirs
    pub bitmap : t.bitmap ≡ s.bitmap
    pub kept : (b : ℕ) → first_data_block ≤ b → t.disk b ≡ s.disk b

  pub OnlyRead-trans :
      (dirs : Directories) (s t u : Fs) → OnlyRead dirs s t → OnlyRead dirs t u → OnlyRead dirs s u
  OnlyRead-trans dirs s t u first second = record {
    tree = second.tree;
    bitmap = second.bitmap ∙ first.bitmap;
    kept = λ b h. second.kept b h ∙ first.kept b h;
  }

  pub OnlyRead-visited :
      (s : Fs) (dirs : Directories) (num : ℕ) (d : Directory)
      → HoldsTree s dirs
      → dirs num ≡ some d
      → (holds : HoldsDirectory s num d) → OnlyRead dirs s (stored_node s num holds.node)
  OnlyRead-visited s dirs num d tree at holds = record {
    tree = HoldsTree-visited s dirs num d tree at holds;
    bitmap = refl;
    kept = stored_node-kept s num holds.node holds.inside;
  }

  walk-invalid :
      (cs : List (List ℕ)) (e : DirEntry) (s : Fs) → is_valid_entry e ≡ false → walk cs e s ≡ ok e s
  unfolding walk
  walk-invalid [] e s invalid = refl
  walk-invalid (c ∷ cs) e s invalid = rw invalid

  walk-step :
      (c : List ℕ) (cs : List (List ℕ)) (entry e : DirEntry) (d : Directory) (s : Fs)
      → is_valid_entry entry ≡ true
      → (holds : HoldsDirectory s entry.node_num d) → get_entry holds.node c s ≡ ok e s
      → walk (c ∷ cs) entry s ≡ walk cs e (stored_node s entry.node_num holds.node)
  unfolding walk
  walk-step c cs entry e d s valid holds found =
      rw
        (
          valid,
          read_node-HoldsDirectory s entry.node_num d holds,
          found,
          unmap_and_destroy_node-stored_node s entry.node_num holds.node holds.inside,
        )
        refl

  pub walk-resolve :
      (cs : List (List ℕ)) (entry : DirEntry) (s : Fs) (dirs : Directories) (found : Option ℕ)
      → All (λ c. c ≢ []) cs
      → is_valid_entry entry ≡ true
      → HoldsTree s dirs
      → resolve dirs cs entry.node_num ≡ some found
      → (e : DirEntry) × (t : Fs) × (walk cs entry s ≡ ok e t)
        × (number_of e ≡ found)
        × OnlyRead dirs s t
  unfolding walk resolve
  walk-resolve [] entry s dirs found named valid tree at =
      (entry, s, refl, cc (valid, at), record { tree = tree; bitmap = refl; kept = λ b h. refl })
  walk-resolve (c ∷ cs) entry s dirs found (c-ne, named) valid tree at =
      elim (Option-cases (dirs entry.node_num)) [
        | inl e ↦ absurd (cc (rw (e, resolve) at at))
        | inr (d, here) ↦
            let holds = tree entry.node_num d here in
            let (child, run, number, same_name) =
              get_entry-small c c-ne s holds.node d.entries holds.small in
            let t = stored_node s entry.node_num holds.node in
            let step = walk-step c cs entry child d s valid holds run in
            let read = OnlyRead-visited s dirs entry.node_num d tree here holds in
            elim (Bool-cases (is_valid_entry child)) [
              | inl v ↦
                  let there : lookup c d.entries ≡ some child.node_num = sym number ∙ rw v refl in
                  let (e, u, walked, result, read') =
                    walk-resolve cs child t dirs found named v read.tree
                      (rw (here, there, resolve) at at) in
                  (e, u, step ∙ walked, result, OnlyRead-trans dirs s t u read read')
              | inr v ↦
                  let absent : lookup c d.entries ≡ none = sym number ∙ rw v refl in
                  let nothing : none ≡ found = cc (rw (here, absent, resolve) at at) in
                  (child, t, step ∙ walk-invalid cs child t v, rw v nothing, read)
            ]
      ]

  -- The path's components, which the library's split gives, are not empty, and the disk holds
  -- the tree: each directory of it is a node of the node table with fewer than 32 entries in one
  -- data block. Where the walk through the tree along the components meets only directories, the
  -- search for the path ends with the entry that the walk finds, or with none where the walk
  -- finds none. The tree, the bitmap and the blocks behind the node table stay as they were.
  pub search_path-resolve :
      (path : List ℕ) (s : Fs) (dirs : Directories) (found : Option ℕ)
      → All (λ c. c ≢ []) (p.string_split path slash)
      → HoldsTree s dirs
      → resolve dirs (p.string_split path slash) 0 ≡ some found
      → (e : DirEntry) × (t : Fs) × (search_path path s ≡ ok e t)
        × (number_of e ≡ found)
        × OnlyRead dirs s t
  unfolding search_path
  search_path-resolve path s dirs found named tree at =
      walk-resolve (p.string_split path slash) root_entry s dirs found named refl tree at

  -- The walk to an entry of a directory that the path without its last component leads to.
  pub walk-child :
      (cs : List (List ℕ)) (c : List ℕ) (entry : DirEntry) (s : Fs) (dirs : Directories)
      (parent : ℕ) (d : Directory)
      → All (λ c. c ≢ []) (cs ++ (c ∷ []))
      → is_valid_entry entry ≡ true
      → HoldsTree s dirs
      → resolve dirs cs entry.node_num ≡ some (some parent)
      → dirs parent ≡ some d
      → (e : DirEntry) × (t : Fs) × (walk (cs ++ (c ∷ [])) entry s ≡ ok e t)
        × (number_of e ≡ lookup c d.entries)
        × (is_valid_entry e ≡ true → e.name ≡ c)
        × OnlyRead dirs s t
  unfolding walk resolve
  walk-child [] c entry s dirs parent d (c-ne, named) valid tree at here =
      let same : entry.node_num ≡ parent = cc at in
      let there : dirs entry.node_num ≡ some d = ap dirs same ∙ here in
      let holds = tree entry.node_num d there in
      let (e, run, number, same_name) = get_entry-small c c-ne s holds.node d.entries holds.small in
      (
        e,
        stored_node s entry.node_num holds.node,
        walk-step c [] entry e d s valid holds run,
        number,
        same_name,
        OnlyRead-visited s dirs entry.node_num d tree there holds,
      )
  walk-child (b ∷ cs) c entry s dirs parent d (b-ne, named) valid tree at here =
      elim (Option-cases (dirs entry.node_num)) [
        | inl e ↦ absurd (cc (rw (e, resolve) at at))
        | inr (d', there) ↦
            let holds = tree entry.node_num d' there in
            let (child, run, number, same_name) =
              get_entry-small b b-ne s holds.node d'.entries holds.small in
            let t = stored_node s entry.node_num holds.node in
            let step = walk-step b (cs ++ (c ∷ [])) entry child d' s valid holds run in
            let read = OnlyRead-visited s dirs entry.node_num d' tree there holds in
            elim (Bool-cases (is_valid_entry child)) [
              | inl v ↦
                  let found : lookup b d'.entries ≡ some child.node_num = sym number ∙ rw v refl in
                  let (e, u, walked, result, name, read') =
                    walk-child cs c child t dirs parent d named v read.tree
                      (rw (there, found, resolve) at at) here in
                  (e, u, step ∙ walked, result, name, OnlyRead-trans dirs s t u read read')
              | inr v ↦
                  let absent : lookup b d'.entries ≡ none = sym number ∙ rw v refl in
                  absurd (cc (rw (there, absent, resolve) at at))
            ]
      ]

  pub search_path-child :
      (path : List ℕ) (cs : List (List ℕ)) (c : List ℕ) (s : Fs) (dirs : Directories) (parent : ℕ)
      (d : Directory)
      → p.string_split path slash ≡ cs ++ (c ∷ [])
      → All (λ c. c ≢ []) (cs ++ (c ∷ []))
      → HoldsTree s dirs
      → resolve dirs cs 0 ≡ some (some parent)
      → dirs parent ≡ some d
      → (e : DirEntry) × (t : Fs) × (search_path path s ≡ ok e t)
        × (number_of e ≡ lookup c d.entries)
        × (is_valid_entry e ≡ true → e.name ≡ c)
        × OnlyRead dirs s t
  unfolding search_path
  search_path-child path cs c s dirs parent d parts named tree at here =
      rw parts (walk-child cs c root_entry s dirs parent d named refl tree at here)

-- An entry that leads to a node is valid.
pub number_of-some :
    (e : DirEntry) (num : ℕ)
    → number_of e ≡ some num
    → (is_valid_entry e ≡ true) × (e.node_num ≡ num)
number_of-some e num h = elim (Bool-cases (is_valid_entry e)) [
  | inl v ↦ (v, cc (rw v at h))
  | inr v ↦ absurd (cc (rw v at h))
]

pub number_of-none : (e : DirEntry) → number_of e ≡ none → is_valid_entry e ≡ false
number_of-none e h = elim (Bool-cases (is_valid_entry e)) [
  | inl v ↦ absurd (cc (rw v at h))
  | inr v ↦ v
]
