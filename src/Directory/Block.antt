-- ===== src/Directory/Block.antt =====
-- The entries in one data block of a directory, against a list of names and node numbers.
use linuse_fs.Base.{
  ℕ, zero, suc, ◌+◌, ◌-◌, ◌*◌, ◌^◌, ◌<◌, ◌≡◌, ◌≢◌, refl, inl, inr, true, false, Option, none, some,
  List, [], ◌∷◌, arith, ltb, leb, if◌then◌else◌, length, str_eq, str_eq→eq, Bool-cases,
}
use linuse_fs.Memory.{Bytes, load, read_string}
use linuse_fs.Disk.{block_size, Fs, ok}
use linuse_fs.Node.{Node, u32}
use linuse_fs.Directory.Entry.{
  DataPosition, DirEntry, invalid_entry, is_valid_entry, next_byte, read_directory_entry,
  with_byte_num,
}
use linuse_fs.Directory.Iterate.{bytes_loop, iterate_bytes_in_block, find_entry}

-- The node number of the first entry with a name.
abbrev pub lookup : List ℕ → List (ℕ × List ℕ) → Option ℕ
lookup name [] = none
lookup name ((num, entry_name) ∷ es) = if str_eq entry_name name then some num else lookup name es

-- The entries stand one behind the other, 128 bytes each, from byte `k` of a block on.
abbrev pub HoldsEntries : Bytes → ℕ → List (ℕ × List ℕ) → Type 0
HoldsEntries b k [] = Unit {0}
HoldsEntries b k ((num, name) ∷ es) =
    (load 4 b k ≡ num) × (read_string 71 b (k + 4) ≡ some name) × HoldsEntries b (k + 128) es

-- What an entry says: its node number, if it is valid.
abbrev pub number_of : DirEntry → Option ℕ
number_of e = if is_valid_entry e then some e.node_num else none

-- The data block of a directory with one block.
abbrev pub entries_block : Fs → Node → ℕ
entries_block s node = load 4 (s.disk (node.indirect_pointer_block 0)) 0

-- The position behind the last entry, in the first block of a directory.
abbrev pub behind : List (ℕ × List ℕ) → DataPosition
behind es = record { pointer_block_num = 0; block_num = 0; byte_num = 128 * length es }

pub valid-ne : (e : DirEntry) → e.name ≢ [] → is_valid_entry e ≡ true
valid-ne e h = elim (Bool-cases (is_valid_entry e)) [
  | inl v ↦ v
  | inr n ↦ absurd (h (empty e.name n))
]
  where
    empty : (s : List ℕ) → (elim s [ [] ↦ false | c ∷ t ↦ true ]) ≡ false → s ≡ []
    empty [] n = refl
    empty (c ∷ s) n = absurd (cc n)

pub next_byte-last : (k limit max : ℕ) → next_byte k limit max true ≡ leb k limit
unfolding next_byte
next_byte-last k limit max = elim (Bool-cases (leb k limit)) [
  | inl e ↦ rw e
  | inr e ↦ elim (Bool-cases (ltb k max)) [ inl e' ↦ rw (e, e') | inr e' ↦ rw (e, e') ]
]

module _ (name : List ℕ) (named : name ≢ []) where
  bytes_loop-valid :
      (fuel : ℕ) (b : Bytes) (limit k : ℕ) (e : DirEntry) (s : Fs)
      → 0 < fuel
      → is_valid_entry e ≡ true
      → bytes_loop (find_entry name) fuel b true limit k e tt s
        ≡ ok (with_byte_num e (u32 (k + 2 ^ 32 - 128)), tt) s
  unfolding bytes_loop
  bytes_loop-valid zero b limit k e s h v = absurd (omega arith)
  bytes_loop-valid (suc fuel) b limit k e s h v = rw v

  bytes_loop-lookup :
      (es : List (ℕ × List ℕ)) (fuel : ℕ) (b : Bytes) (limit k : ℕ) (s : Fs)
      → length es < fuel
      → k + 128 * length es ≡ limit + 1
      → limit < block_size
      → HoldsEntries b k es
      → (e : DirEntry) × (bytes_loop (find_entry name) fuel b true limit k invalid_entry tt s
          ≡ ok (e, tt) s)
        × (number_of e ≡ lookup name es)
  unfolding bytes_loop find_entry read_directory_entry with_byte_num
  bytes_loop-lookup es zero b limit k s h end small holds = absurd (omega arith)
  bytes_loop-lookup [] (suc fuel) b limit k s h end small holds =
      let past : leb k limit ≡ false = ground arith in
      (
        with_byte_num invalid_entry (u32 (k + 2 ^ 32 - 128)),
        rw (next_byte-last k limit block_size, past),
        refl,
      )
  bytes_loop-lookup ((num, entry_name) ∷ es) (suc fuel) b limit k s h end small (e0, e1, holds) =
      let before : leb k limit ≡ true = ground arith in
      let inside : ltb k block_size ≡ true = ground arith in
      elim (Bool-cases (str_eq entry_name name)) [
        | inl same ↦
            let entry : DirEntry = record {
              name = entry_name;
              node_num = load 4 b k;
              position = invalid_entry.position;
            } in
            let valid : is_valid_entry entry ≡ true =
              valid-ne entry (rw (str_eq→eq entry_name name same) named) in
            (
              with_byte_num entry (u32 (k + 128 + 2 ^ 32 - 128)),
              rw (next_byte-last k limit block_size, before, inside, e1, same)
                  (bytes_loop-valid fuel b limit (k + 128) entry s (omega arith) valid),
              rw (valid, e0, same),
            )
        | inr other ↦
            let (e, run, number) =
              bytes_loop-lookup es fuel b limit (k + 128) s (omega arith) (omega arith) small
                holds in
            (
              e,
              rw (next_byte-last k limit block_size, before, inside, e1, other) run,
              rw other number,
            )
      ]

  -- A data block with fewer than 32 entries, the last of the directory.
  pub iterate_bytes-lookup :
      (es : List (ℕ × List ℕ)) (b : Bytes) (s : Fs)
      → 0 < length es
      → length es < 32
      → HoldsEntries b 0 es
      → (e : DirEntry) × (iterate_bytes_in_block (find_entry name) b true (behind es) tt s
          ≡ ok (e, tt) s)
        × (number_of e ≡ lookup name es)
  unfolding iterate_bytes_in_block
  iterate_bytes-lookup es b s some_entries few holds =
      bytes_loop-lookup es 34 b (u32 (128 * length es + 2 ^ 32 - 1)) 0 s (omega arith) (omega arith)
        (omega arith) holds
