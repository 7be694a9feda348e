-- ===== src/Tests/Storage.antt =====
-- Examples for the storage: disks with used and free blocks, and the node of a file.
use linuse_fs.Base.{
  ◌==◌, ◌∙◌, ℕ, zero, suc, ◌+◌, ◌-◌, ◌%◌, ◌<◌, ◌≡◌, ◌≢◌, refl, inl, inr, List, [], ◌∷◌, arith, leb,
  ltb, if◌then◌else◌, ◌⊎◌,
}
use linuse_fs.Memory.{Bytes, memcpy, object_bytes, load, string_bytes, read_string}
use linuse_fs.Platform.{BitArray}
use linuse_fs.Disk.{node_table_initial_block, node_table_blocks, read_block, Fs, ok, fault}
use linuse_fs.Bitmap.{get_free_block}
use linuse_fs.Bitmap.Alloc.{
  AllUsed, IsFirstFree, IsMarked, get_free_block_lem, get_free_block_overruns,
}
use linuse_fs.Node.Slots.{get_data_block_from_node-create_data_block_in_pointer_block}
use linuse_fs.Node.{
  get_data_block_from_node, create_data_block_in_pointer_block, Node, node_to_block, slot_value,
  get_block_num_from_node_num, unmap_and_destroy_node, read_node,
}
use linuse_fs.Node.Blocks.{
  reread, reread-SameNode, block_to_node-reread, SameNode-IsInRange, SameNode, IsInRange, HasName,
  read_node-unmap_and_destroy_node,
}
use linuse_fs.Sacio.Data.{sac_write, sac_read}
use linuse_fs.Sacio.Contents.{data_block, sac_read-sac_write}
use linuse_fs.Status
use linuse_fs.Disk.Ends.{Post}
use linuse_fs.Sacio.Within.{IsAtMost, SameBehind, sac_read-SameBehind}
use linuse_fs.Sample.{unix, unix-BitLaws, bit, digit}

-- Three used blocks at the front of 64.
abbrev three_used : BitArray
three_used = record { bitarray = λ i. if leb i 0 then 0xe0 else 0; size = 8 }

-- 64 used blocks.
abbrev all_used : BitArray
all_used = record { bitarray = λ i. 0xff; size = 8 }

abbrev disk_with : BitArray → Fs
disk_with b = record { disk = λ _ _. 0; bitmap = b }

three_used-AllUsed : AllUsed ⦃p = unix 4⦄ three_used 1 3
unfolding bit digit
three_used-AllUsed i lo hi =
    let cases : (i ≡ 1) ⊎ (i ≡ 2) = omega arith in
    elim cases [ inl e ↦ rw e refl | inr e ↦ rw e refl ]

three_used-IsFirstFree : IsFirstFree ⦃p = unix 4⦄ three_used 1 3
unfolding bit digit
three_used-IsFirstFree = (omega arith, refl, three_used-AllUsed)

get_free_block_lem_example :
    (b' : BitArray) × (get_free_block ⦃p = unix 4⦄ 1 6 (disk_with three_used) ≡ ok 3 (disk_with b'))
    × IsMarked ⦃p = unix 4⦄ three_used 3 b'
get_free_block_lem_example =
    get_free_block_lem ⦃p = unix 4⦄ (unix-BitLaws 4) 1 6 3 (disk_with three_used)
      three_used-IsFirstFree (omega arith) (omega arith)

digit-all_used : (k : ℕ) → k < 8 → digit 0xff k ≡ 1
unfolding digit
digit-all_used zero h = refl
digit-all_used (suc zero) h = refl
digit-all_used (suc (suc zero)) h = refl
digit-all_used (suc (suc (suc zero))) h = refl
digit-all_used (suc (suc (suc (suc zero)))) h = refl
digit-all_used (suc (suc (suc (suc (suc zero))))) h = refl
digit-all_used (suc (suc (suc (suc (suc (suc zero)))))) h = refl
digit-all_used (suc (suc (suc (suc (suc (suc (suc zero))))))) h = refl
digit-all_used (suc (suc (suc (suc (suc (suc (suc (suc k)))))))) h = absurd (omega arith)

all_used-AllUsed : AllUsed ⦃p = unix 4⦄ all_used 2 64
unfolding bit
all_used-AllUsed i lo hi = rw (digit-all_used (7 - i % 8) (omega arith)) refl

get_free_block_overruns_example : get_free_block ⦃p = unix 4⦄ 2 6 (disk_with all_used) ≡ fault
get_free_block_overruns_example =
    get_free_block_overruns ⦃p = unix 4⦄ 2 6 (disk_with all_used) (omega arith) all_used-AllUsed

-- A file "ab" of 5000 bytes, with two pointers blocks.
abbrev ab : List ℕ
ab = b'a' ∷ b'b' ∷ []

abbrev file_node : Node
file_node = record {
  state = 1;
  file_name = string_bytes ab;
  parent_block = 0;
  file_size = 5_000;
  creation_date = 1_574_035_200;
  modification_date = 1_574_035_300;
  indirect_pointer_block = λ i. if ltb i 2 then 1_058 + i else 0;
}

file_node-IsInRange : IsInRange file_node
file_node-IsInRange = record {
  state = omega arith;
  parent_block = omega arith;
  file_size = omega arith;
  creation_date = omega arith;
  modification_date = omega arith;
  pointers = λ i hi. ground arith;
}

file_node-HasName : HasName file_node ab
unfolding string_bytes read_string
file_node-HasName = refl

read_node-unmap_and_destroy_node_example :
    (m : Node) × (t : Fs) × (unmap_and_destroy_node file_node
        (get_block_num_from_node_num 3)
        (disk_with three_used)
      ≡ ok tt t)
    × (read_node ⦃p = unix 4⦄ 3 t ≡ ok (m, get_block_num_from_node_num 3) t)
    × SameNode m file_node
    × ((b : ℕ) → b ≢ get_block_num_from_node_num 3 → t.disk b ≡ (λ _. 0))
unfolding get_block_num_from_node_num
read_node-unmap_and_destroy_node_example =
    read_node-unmap_and_destroy_node ⦃p = unix 4⦄ 3 file_node ab (disk_with three_used)
      (omega arith) file_node-IsInRange file_node-HasName

-- The file's node is node 3; its first data block is block 1500.
abbrev file_disk : Fs
file_disk = record {
  disk = λ b.
      if b == 5
      then node_to_block file_node (λ _. 0)
      else if b == 1_058
      then memcpy (λ _. 0) 0 (object_bytes 1_500) 0 4
      else λ _. 0;
  bitmap = three_used;
}

abbrev stored_node : Node
stored_node = reread ⦃p = unix 4⦄ file_node ab (node_to_block file_node (λ _. 0))

stored_node-SameNode : SameNode stored_node file_node
stored_node-SameNode =
    reread-SameNode ⦃p = unix 4⦄ file_node ab (λ _. 0) file_node-IsInRange file_node-HasName

read_node-stored_node :
    read_node ⦃p = unix 4⦄ 3 file_disk ≡ ok (stored_node, get_block_num_from_node_num 3) file_disk
unfolding read_node read_block get_block_num_from_node_num
read_node-stored_node = rw (
    block_to_node-reread ⦃p = unix 4⦄ file_node ab (λ _. 0) file_disk file_node-IsInRange
      file_node-HasName)

stored_node-pointer : stored_node.indirect_pointer_block 0 ≡ 1_058
stored_node-pointer = stored_node-SameNode.pointers 0 (omega arith)

stored_node-data_block : data_block file_disk stored_node 10 ≡ 1_500
unfolding slot_value load memcpy object_bytes
stored_node-data_block = rw stored_node-pointer refl

sac_read-sac_write_example :
    (t u : Fs) × (out : Bytes) × (sac_write ⦃p = unix 4⦄ 3 (string_bytes ab) 2 10 file_disk
      ≡ ok 2 t)
    × (sac_read ⦃p = unix 4⦄ 3 (λ _. 0xee) 2 10 t ≡ ok (Status.pos 2, out) u)
    × ((i : ℕ) → i < 2 → out i ≡ string_bytes ab i)
    × ((b : ℕ)
        → b ≢ get_block_num_from_node_num 3
        → b ≢ data_block file_disk stored_node 10
        → t.disk b ≡ file_disk.disk b)
unfolding get_block_num_from_node_num
sac_read-sac_write_example =
    sac_read-sac_write ⦃p = unix 4⦄ 3 (string_bytes ab) (λ _. 0xee) 2 10 stored_node ab file_disk
      refl read_node-stored_node
      (SameNode-IsInRange stored_node file_node stored_node-SameNode file_node-IsInRange)
      (stored_node-SameNode.name ∙ file_node-HasName) refl (omega arith)
      (rw stored_node-pointer (omega arith)) (omega arith) (rw stored_node-pointer (omega arith))
      (rw stored_node-data_block (omega arith)) (rw stored_node-pointer (omega arith))
      (rw stored_node-data_block (omega arith))
      (rw (stored_node-data_block, stored_node-pointer) (omega arith)) (omega arith) (omega arith)
      (omega arith)

-- The first 36 blocks of 4096 are used.
abbrev four_free : BitArray
four_free = record {
  bitarray = λ i. if ltb i 4 then 0xff else if leb i 4 then 0xf0 else 0;
  size = 512;
}

four_free-AllUsed : AllUsed ⦃p = unix 4⦄ four_free 34 36
unfolding bit digit
four_free-AllUsed i lo hi =
    let cases : (i ≡ 34) ⊎ (i ≡ 35) = omega arith in
    elim cases [ inl e ↦ rw e refl | inr e ↦ rw e refl ]

four_free-IsFirstFree :
    IsFirstFree ⦃p = unix 4⦄ four_free (node_table_initial_block + node_table_blocks) 36
unfolding bit digit
four_free-IsFirstFree = (omega arith, refl, four_free-AllUsed)

get_data_block_from_node-create_data_block_in_pointer_block_example :
    (t : Fs) × (create_data_block_in_pointer_block ⦃p = unix 4⦄ file_node 1 7 (disk_with four_free)
      ≡ ok 36 t)
    × (get_data_block_from_node ⦃p = unix 4⦄ file_node 1_031 t ≡ ok 36 t)
    × IsMarked ⦃p = unix 4⦄ four_free 36 t.bitmap
    × ((k : ℕ) → k ≢ 7 → slot_value (t.disk 1_059) k ≡ slot_value (λ _. 0) k)
    × ((b : ℕ) → b ≢ 1_059 → t.disk b ≡ (λ _. 0))
get_data_block_from_node-create_data_block_in_pointer_block_example =
    get_data_block_from_node-create_data_block_in_pointer_block ⦃p = unix 4⦄ (unix-BitLaws 4)
      file_node 1 7 36 (disk_with four_free) refl (omega arith) (omega arith) (omega arith)
      four_free-IsFirstFree (omega arith) (omega arith)

-- Ten bytes are asked for and ten are there, in a buffer of 0xee.
sac_read-SameBehind_example :
    Post
      (λ (status, new). IsAtMost 10 status × SameBehind 10 (λ _. 0xee) new)
      (sac_read ⦃p = unix 4⦄ 3 (λ _. 0xee) 10 10 file_disk)
sac_read-SameBehind_example =
    sac_read-SameBehind ⦃p = unix 4⦄ 3 (λ _. 0xee) 10 10 file_disk (omega arith)
