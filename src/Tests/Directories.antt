-- ===== src/Tests/Directories.antt =====
-- Examples for directories: the root with two entries.
use linuse_fs.Base.{
  zero, suc, ◌+◌, ◌%◌, ◌≤◌, ap, length, none, some, str_eq, str_eq→eq, Bool-cases, inl, inr, get_or,
  ℕ, ◌≡◌, ◌≢◌, refl, List, [], ◌∷◌, arith, if◌then◌else◌, ◌==◌,
}
use linuse_fs.Memory.{Bytes, memcpy, object_bytes, load, string_bytes, read_string}
use linuse_fs.Disk.{fault, Fs, ok}
use linuse_fs.Node.{Node}
use linuse_fs.Directory.Entry.{DirEntry}
use linuse_fs.Directory.Iterate.{get_entry}
use linuse_fs.Directory.Full.{get_entry_full}
use linuse_fs.Memory.Laws.{read_string-eq}
use linuse_fs.Directory.Update.{add_directory_entry}
use linuse_fs.Directory.Added.{get_entry-add_directory_entry}
use linuse_fs.Sample.{unix}
use linuse_fs.Directory.Block.{entries_block, HoldsEntries, lookup, number_of}

abbrev ab : List ℕ
ab = b'a' ∷ b'b' ∷ []

abbrev c : List ℕ
c = b'c' ∷ []

abbrev zeros : Bytes
zeros = λ _. 0

-- Node 3 is "ab", node 4 is "c".
abbrev entries : Bytes
entries =
    let first = memcpy (memcpy zeros 0 (object_bytes 3) 0 4) 4 (string_bytes ab) 0 2 in
    memcpy (memcpy first 128 (object_bytes 4) 0 4) 132 (string_bytes c) 0 1

abbrev root_disk : Fs
root_disk = record {
  disk = λ b.
      if b == 1_058
      then memcpy zeros 0 (object_bytes 1_500) 0 4
      else if b == 1_500
      then entries
      else zeros;
  bitmap = record { bitarray = zeros; size = 375 };
}

abbrev root : Node
root = record {
  state = 2;
  file_name = string_bytes (b'/' ∷ []);
  parent_block = 0;
  file_size = 256;
  creation_date = 0;
  modification_date = 0;
  indirect_pointer_block = λ i. if i == 0 then 1_058 else 0;
}

c-ne : c ≢ []
c-ne e = absurd (cc e)

entries-HoldsEntries : HoldsEntries entries 0 ((3, ab) ∷ (4, c) ∷ [])
unfolding load memcpy object_bytes string_bytes read_string
entries-HoldsEntries = (refl, refl, (refl, refl, tt))

abbrev d : List ℕ
d = b'd' ∷ []

get_entry-add_directory_entry_example :
    (node' : Node) × (t : Fs) × (add_directory_entry ⦃p = unix 4⦄ root d 5 root_disk ≡ ok node' t)
    × ((b : ℕ) → b ≢ entries_block root_disk root → t.disk b ≡ root_disk.disk b)
    × ((wanted : List ℕ)
        → wanted ≢ []
        → (e : DirEntry) × (get_entry node' wanted t ≡ ok e t)
          × (number_of e ≡ lookup wanted ((3, ab) ∷ (4, c) ∷ (5, d) ∷ [])))
unfolding load memcpy object_bytes
get_entry-add_directory_entry_example =
    get_entry-add_directory_entry ⦃p = unix 4⦄ root ((3, ab) ∷ (4, c) ∷ []) 5 d root_disk
      (omega arith) refl (omega arith) (omega arith) (omega arith) refl (omega arith) (omega arith)
      (omega arith) entries-HoldsEntries (omega arith) (omega arith, tt) (omega arith)

-- A directory with 32 entries, all "ab" with node 3.
abbrev same_entries : Bytes
same_entries =
    λ i. if i % 128 == 0 then 3 else if i % 128 == 4 then b'a' else if i % 128 == 5 then b'b' else 0

many : ℕ → List (ℕ × List ℕ)
many zero = []
many (suc n) = (3, ab) ∷ many n

length-many : (n : ℕ) → length (many n) ≡ n
unfolding many
length-many zero = refl
length-many (suc n) = ap suc (length-many n)

lookup-many : (n : ℕ) → lookup c (many n) ≡ none
unfolding many
lookup-many zero = refl
lookup-many (suc n) = elim (Bool-cases (str_eq ab c)) [
  | inl e ↦ absurd (cc (str_eq→eq ab c e))
  | inr e ↦ rw e (lookup-many n)
]

same_entries-number : (k : ℕ) → k % 128 ≡ 0 → load 4 same_entries k ≡ 3
unfolding load
same_entries-number k h = ground arith

same_entries-name : (k : ℕ) → k % 128 ≡ 0 → read_string 71 same_entries (k + 4) ≡ some ab
same_entries-name k h =
    read_string-eq ab 71 same_entries (k + 4) (omega arith, (omega arith, tt)) (omega arith) letter
  where
    letter : (i : ℕ) → i ≤ 2 → same_entries (k + 4 + i) ≡ get_or ab i 0
    letter zero hi = ground arith
    letter (suc zero) hi = ground arith
    letter (suc (suc zero)) hi = ground arith
    letter (suc (suc (suc i))) hi = absurd (omega arith)

same_entries-HoldsEntries : (n k : ℕ) → k % 128 ≡ 0 → HoldsEntries same_entries k (many n)
unfolding many
same_entries-HoldsEntries zero k h = tt
same_entries-HoldsEntries (suc n) k h = (
  same_entries-number k h,
  same_entries-name k h,
  same_entries-HoldsEntries n (k + 128) (omega arith),
)

abbrev full_root : Node
full_root = record root { file_size = 4_096 }

abbrev full_disk : Fs
full_disk = record root_disk {
  disk = λ b.
      if b == 1_058
      then memcpy zeros 0 (object_bytes 1_500) 0 4
      else if b == 1_500
      then same_entries
      else zeros;
}

get_entry_full_example : get_entry full_root c full_disk ≡ fault
unfolding load memcpy object_bytes
get_entry_full_example =
    get_entry_full c full_root (many 32) full_disk (omega arith) (omega (arith, length-many 32))
      (length-many 32) (omega arith) (omega arith) (omega arith)
      (same_entries-HoldsEntries 32 0 refl) (lookup-many 32)
