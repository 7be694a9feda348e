-- ===== src/Sacio/Data.antt =====
-- The contents of files: `sac_write`, `sac_read` and `sac_truncate`. An offset is an off_t that is
-- not negative, of 32 bits as a request carries it. An `int` is its pattern of 32 bits; a signed
-- overflow, which C leaves undefined, is `crash`.
use linuse_fs.Base.{
  ℕ, zero, suc, ◌+◌, ◌-◌, ◌/◌, ◌%◌, ◌^◌, Bool, ◌&&◌, ◌||◌, not, List, ltb, leb, ◌==◌, if◌then◌else◌,
}
use linuse_fs.Memory.{Bytes, memcpy}
use linuse_fs.Platform.{Platform}
use linuse_fs.Disk.{
  block_size, out_of_fuel, Cmd, pure, crash, min, ◌>>=◌, ◌>>◌, read_block, write_block,
}
use linuse_fs.Node.{
  Node, u32, read_node, unmap_and_destroy_node, add_data_block_to_node, get_data_block_from_node,
  delete_last_data_block,
}
use linuse_fs.Directory.Entry.{is_valid_entry, get_next_write_position}
use linuse_fs.Directory.Path.{is_valid_path, search_path}
use linuse_fs.Status.{Status, success, failure}
use linuse_fs.Sacio.File.{sac_open}

abbrev pub int_limit : ℕ
int_limit = 2 ^ 31

-- The patterns of ints in the order of the ints; `a < b` for ints.
abbrev pub biased : ℕ → ℕ
biased a = (a + int_limit) % 2 ^ 32

abbrev pub int_lt : ℕ → ℕ → Bool
int_lt a b = ltb (biased a) (biased b)

-- memcpy of `n` bytes into a data block at `at`.
unfoldable pub write_bytes : ℕ → ℕ → Bytes → ℕ → ℕ → Cmd (Unit {0})
write_bytes block at src from n =
    if leb (at + n) block_size then write_block block (λ b. memcpy b at src from n) else crash

module _ ⦃p : Platform⦄ where
  -- The loop that fills the gap before `offset`; each round writes a byte at least, and takes it
  -- off `offset_left`.
  unfoldable pub fill_loop : ℕ → Node → ℕ → Cmd Node
  fill_loop zero node offset_left = λ _. out_of_fuel
  fill_loop (suc fuel) node offset_left =
      if ltb node.file_size offset_left
      then (do
        let last = get_next_write_position node
        let nulls = min offset_left block_size - last.byte_num
        block ← get_data_block_from_node node last.block_num
        write_bytes block last.byte_num (λ _. 0) 0 nulls
        let node' = record node { file_size = u32 (node.file_size + nulls) }
        let offset_left' = offset_left - nulls
        node'' ←
            if last.byte_num + nulls == block_size && ltb 0 offset_left'
            then add_data_block_to_node node'
            else pure node'
        fill_loop fuel node'' offset_left')
      else pure node

  -- The loop that writes the buffer, block by block. `in_block` is what went to the current block.
  unfoldable pub write_loop : ℕ → Bytes → ℕ → ℕ → ℕ → Node → ℕ → ℕ → ℕ → ℕ → Cmd Node
  write_loop zero buffer count offset original node block byte written in_block = λ _. out_of_fuel
  write_loop (suc fuel) buffer count offset original node block byte written in_block =
      if ltb written count
      then (do
        let available = block_size - byte
        let n = if ltb available (count - written) then available else count - written
        data_block ← get_data_block_from_node node block
        write_bytes data_block (byte + in_block) buffer written n
        let written' = written + n
        let full = n == available && leb written' count
        node' ←
            if leb int_limit written'
            then crash
            else if full
            then add_data_block_to_node node
            else pure node
        let node'' =
            if leb int_limit original || ltb original (offset + written')
            then record node' { file_size = u32 (offset + written') }
            else node'
        write_loop fuel buffer count offset original node'' (if full then block + 1 else block)
            (if full then 0 else byte) written' (if full then 0 else in_block + n))
      else pure node

  -- `BLOCK_SIZE * bloqueInicio` overflows an int from an offset of 2 ^ 31 on.
  unfoldable pub sac_write : ℕ → Bytes → ℕ → ℕ → Cmd ℕ
  sac_write fd buffer count offset = do
    (file_node, file_node_block) ← read_node fd
    node ←
        if file_node.indirect_pointer_block 0 == 0
        then add_data_block_to_node file_node
        else pure file_node
    if leb int_limit offset then crash else (do
      filled ← fill_loop (offset + 1) node offset
      node' ←
          write_loop (count + 1) buffer count offset filled.file_size filled (offset / block_size)
            (offset % block_size) 0 0
      unmap_and_destroy_node node' file_node_block
      pure count)

  -- The loop that reads block by block; `data_block` is the block that is mapped.
  unfoldable pub read_loop : ℕ → Node → ℕ → ℕ → ℕ → ℕ → ℕ → Bytes → Cmd (ℕ × Bytes)
  read_loop zero node count block data_block byte done buffer = λ _. out_of_fuel
  read_loop (suc fuel) node count block data_block byte done buffer =
      if ltb done count
      then (do
        let room = min block_size node.file_size - byte
        let n = if ltb room (count - done) then room else count - done
        b ← read_block data_block
        let buffer' = memcpy buffer done b byte n
        let done' = done + n
        if leb node.file_size done'
            then pure (done', buffer')
            else if ltb done' count
            then (do
              next ← get_data_block_from_node node (block + 1)
              read_loop fuel node count (block + 1) next 0 done' buffer')
            else read_loop fuel node count block data_block byte done' buffer')
      else pure (done, buffer)

  abbrev pub sum_limit : ℕ
  sum_limit = if ltb p.pointer_size p.off_t_size then 256 ^ p.off_t_size else 256 ^ p.pointer_size

  -- The bytes read, and the status: the number of bytes, or -1. `count + offset` is computed in the
  -- wider of size_t and off_t. `BLOCK_SIZE * bloqueInicio` overflows an int from an offset of 2 ^ 31
  -- on.
  unfoldable pub sac_read : ℕ → Bytes → ℕ → ℕ → Cmd (Status × Bytes)
  sac_read fd buffer count offset = do
    (file_node, file_node_block) ← read_node fd
    if not (file_node.state == 1) || file_node.indirect_pointer_block 0 == 0
        then (do unmap_and_destroy_node file_node file_node_block; pure (failure, buffer))
        else if not (int_lt offset file_node.file_size)
        then (do unmap_and_destroy_node file_node file_node_block; pure (success, buffer))
        else if leb int_limit offset
        then crash
        else (do
          let start = offset / block_size
          data_block ← get_data_block_from_node file_node start
          let count' =
              if ltb file_node.file_size ((count + offset) % sum_limit)
              then file_node.file_size - offset
              else count
          (done, buffer') ←
              read_loop (count' + 1) file_node count' start data_block (offset % block_size) 0
                buffer
          unmap_and_destroy_node file_node file_node_block
          pure (Status.pos done, buffer'))

  -- One round of a truncation that shortens. The file size is the int `tamanoArchivo`, and `length` the
  -- int `largoTruncado`; where that is negative and near the size, nothing changes.
  unfoldable pub shrink_step : Node → ℕ → Cmd Node
  unfolding delete_last_data_block
  shrink_step node length =
      let surplus = biased node.file_size - biased length in
      if leb int_limit surplus
      then crash
      else if leb block_size surplus || length == 0
      then delete_last_data_block node
      else if ltb length int_limit
      then pure (record node { file_size = node.file_size - surplus })
      else pure node

  -- The loop of a truncation that shortens.
  unfoldable pub shrink_loop : ℕ → Node → ℕ → Cmd Node
  unfolding shrink_step
  shrink_loop zero node length = λ _. out_of_fuel
  shrink_loop (suc fuel) node length =
      if int_lt length node.file_size && int_lt 0 node.file_size
      then (do node' ← shrink_step node length; shrink_loop fuel node' length)
      else pure node

  -- A negative length counts as 0.
  unfoldable pub clamp : Status → ℕ
  clamp (Status.pos n) = n
  clamp (Status.negsuc n) = 0

  unfoldable pub fd_of : Status → ℕ
  fd_of (Status.pos n) = n
  fd_of (Status.negsuc n) = 2 ^ 32 - 1 - n

  unfoldable pub sac_truncate : List ℕ → Status → Cmd Status
  unfolding clamp fd_of is_valid_path search_path read_node unmap_and_destroy_node sac_open
      sac_write shrink_loop
  sac_truncate path signed_length =
      let length = clamp signed_length % 2 ^ 32 in
      if not (is_valid_path path) then pure failure else (do
        entry ← search_path path
        if not (is_valid_entry entry) then pure failure else (do
          (file_node, file_node_block) ← read_node entry.node_num
          if not (file_node.state == 1)
              then (do unmap_and_destroy_node file_node file_node_block; pure failure)
              else if int_lt file_node.file_size length
              then (if leb int_limit (biased length - biased file_node.file_size)
                  then crash
                  else (do
                    fd ← sac_open path
                    _ ←
                        sac_write (fd_of fd) (λ _. b'A')
                          (biased length - biased file_node.file_size) file_node.file_size
                    pure success))
              else (do
                node' ← shrink_loop (file_node.file_size + 1) file_node length
                unmap_and_destroy_node node' file_node_block
                pure success)))
