-- ===== src/Sacio/Within.antt =====
-- sac-fs/src/sacio.c: what a read writes into the caller's buffer.
use linuse_fs.Base.{
  ℕ, zero, suc, ◌+◌, ◌-◌, ◌/◌, ◌%◌, ◌≤◌, ◌<◌, ◌≡◌, refl, ◌∙◌, inl, inr, true, false, arith, ltb,
  leb, if◌then◌else◌, Bool-cases, ◌==◌, ◌||◌, not,
}
use native.Mathlib.Nat.{mod-le}
use linuse_fs.Memory.{Bytes, memcpy}
use linuse_fs.Memory.Laws.{memcpy-outside}
use linuse_fs.Platform.{Platform}
use linuse_fs.Disk.{Fs, block_size, min, and_then, pure, ◌>>◌}
use linuse_fs.Disk.Ends.{Post, Post-and_then, Post-after, ends}
use linuse_fs.Node.{Node, read_node, unmap_and_destroy_node}
use linuse_fs.Node.Ends.{read_node-Ends, unmap_and_destroy_node-Ends, get_data_block_from_node-Ends}
use linuse_fs.Status.{Status}
use linuse_fs.Sacio.Data.{read_loop, sac_read, int_limit, int_lt, sum_limit}

-- No byte behind the first `count` ones differs.
abbrev pub SameBehind : ℕ → Bytes → Bytes → Type 0
SameBehind count old new = (i : ℕ) → count ≤ i → new i ≡ old i

-- At most `count` bytes were read, and none was written behind them.
abbrev pub IsWithin : ℕ → Bytes → ℕ × Bytes → Type 0
IsWithin count old (done, new) = (done ≤ count) × SameBehind count old new

module _ ⦃p : Platform⦄ where
  read_loop-IsWithin :
      (fuel : ℕ) (node : Node) (count block data_block byte done : ℕ) (old buffer : Bytes) (s : Fs)
      → byte < min block_size node.file_size
      → 0 < fuel
      → count < done + fuel
      → IsWithin count old (done, buffer)
      → Post (IsWithin count old) (read_loop fuel node count block data_block byte done buffer s)
  unfolding read_loop
  read_loop-IsWithin zero node count block data_block byte done old buffer s inside some_left enough
        within =
      absurd (omega arith)
  read_loop-IsWithin (suc fuel) node count block data_block byte done old buffer s inside some_left
        enough within =
      let room = min block_size node.file_size - byte in
      let n = if ltb room (count - done) then room else count - done in
      let out : Bytes → Bytes = λ b. memcpy buffer done b byte n in
      let after : (b : Bytes) → ltb done count ≡ true → IsWithin count old (done + n, out b) =
        λ b more.
          let small : done + n ≤ count = ground arith in
          (
            small,
            λ i hi. memcpy-outside buffer done b byte n i (inr (omega arith)) ∙ within.1 i hi,
          ) in
      let next : (block' data_block' byte' : ℕ) (b : Bytes) (s' : Fs)
          → byte' < min block_size node.file_size
          → ltb done count ≡ true
          → Post (IsWithin count old)
              (read_loop fuel node count block' data_block' byte' (done + n) (out b) s') =
        λ block' data_block' byte' b s' inside' more.
          let here : count < done + n + fuel = ground arith in
          read_loop-IsWithin fuel node count block' data_block' byte' (done + n) old (out b) s'
            inside' (ground arith) here (after b more) in
      let front : 0 < min block_size node.file_size = omega arith in
      search (ends, get_data_block_from_node-Ends, after, next, within) depth 12

-- The status of a read: at most `count`, or a failure.
abbrev pub IsAtMost : ℕ → Status → Type 0
IsAtMost count (Status.pos n) = n ≤ count
IsAtMost count (Status.negsuc n) = Unit {0}

module _ ⦃p : Platform⦄ where
  -- A read from an offset below 2 ^ 31 ends, for every descriptor, every count and every disk, and
  -- where it returns, it has read at most `count` bytes, or has failed, and has left all bytes of the
  -- buffer behind the first `count` ones.
  pub sac_read-SameBehind :
      (fd : ℕ) (buffer : Bytes) (count offset : ℕ) (s : Fs)
      → offset < int_limit
      → Post
          (λ (status, new). IsAtMost count status × SameBehind count buffer new)
          (sac_read fd buffer count offset s)
  unfolding sac_read
  sac_read-SameBehind fd buffer count offset s low =
      let Result : Status × Bytes → Type 0 =
        λ (status, new). IsAtMost count status × SameBehind count buffer new in
      let nothing : SameBehind count buffer buffer = λ i hi. refl in
      let read : (node : Node) (block data_block : ℕ) (file_block : ℕ) (s' : Fs)
          → not (int_lt offset node.file_size) ≡ false
          → Post Result (
              and_then
                (read_loop
                  ((if ltb node.file_size ((count + offset) % sum_limit)
                      then node.file_size - offset
                      else count)
                    + 1)
                  node
                  (if ltb node.file_size ((count + offset) % sum_limit)
                    then node.file_size - offset
                    else count)
                  block data_block (offset % block_size) 0 buffer s')
                (λ (done, buffer').
                  unmap_and_destroy_node node file_block >> pure (Status.pos done, buffer'))) =
        λ node block data_block file_block s' before.
          let count' =
            if ltb node.file_size ((count + offset) % sum_limit)
            then node.file_size - offset
            else count in
          let below : (count + offset) % sum_limit ≤ count + offset =
            mod-le (count + offset) sum_limit in
          let fewer : count' ≤ count = ground (arith, below) in
          let inside : offset % block_size < min block_size node.file_size = ground arith in
          Post-and_then (IsWithin count' buffer) Result _ _
            (read_loop-IsWithin (count' + 1) node count' block data_block _ 0 buffer buffer s'
              inside (omega arith) (omega arith) (omega arith, λ i hi. refl))
            λ (done, buffer') t within.
              Post-after Result _ _ (unmap_and_destroy_node-Ends node file_block t) λ u v.
                (omega (arith, within.0, fewer), λ i hi. within.1 i (omega (arith, fewer))) in
      let failed : Result (Status.negsuc 0, buffer) = (tt, nothing) in
      let empty : Result (Status.pos 0, buffer) = (omega arith, nothing) in
      Post-after Result (read_node fd s) _ (read_node-Ends fd s) λ (node, block) t.
        let closed : (r : Status × Bytes)
            → Result r
            → Post Result ((unmap_and_destroy_node node block >> pure r) t) =
          λ r h. Post-after Result _ _ (unmap_and_destroy_node-Ends node block t) (λ u v. h) in
        let failed' = closed (Status.negsuc 0, buffer) failed in
        let empty' = closed (Status.pos 0, buffer) empty in
        elim (Bool-cases (not (node.state == 1) || node.indirect_pointer_block 0 == 0)) [
          | inl h ↦ rw h failed'
          | inr h ↦ elim (Bool-cases (not (int_lt offset node.file_size))) [
            | inl e ↦ rw (h, e) empty'
            | inr e ↦
                let small : leb int_limit offset ≡ false = ground arith in
                rw (h, e, small)
                  (Post-after Result _ _
                    (get_data_block_from_node-Ends node (offset / block_size) t)
                    λ d v. read node (offset / block_size) d block v e)
          ]
        ]
