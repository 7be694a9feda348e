-- ===== src/Fuse.antt =====
-- sac-cli/src/fuse.c: what the client makes of the server's answers.
pub mod Answers
pub mod Callbacks
pub mod Calls
pub mod Data
pub mod Effects
pub mod Listing
pub mod Reading
use linuse_fs.Base.{
  ℕ, zero, suc, ◌+◌, Bool, ◌&&◌, not, Option, none, some, List, [], ◌∷◌, map, ltb, leb, ◌==◌,
  if◌then◌else◌, str_eq,
}
use linuse_fs.Memory.{Bytes, load, read_string}
use linuse_fs.Platform.{Platform}
use linuse_fs.Package.{Package}
use linuse_fs.Status.{Status}
use mathlib.Core.Option

-- The fields of `struct stat` that are filled from the answer.
pub record FileStat : Type 0 where
  pub is_dir : Bool
  pub nlink : ℕ
  pub ino : ℕ
  pub size : ℕ
  pub mtime : ℕ
  pub ctime : ℕ
  pub atime : ℕ

unfoldable pub fill_stat_from_buffer : Bytes → FileStat
fill_stat_from_buffer buffer =
    let is_dir = load 2 buffer 0 == 2 in
    record {
      is_dir = is_dir;
      nlink = if is_dir then 2 else 1;
      ino = load 2 buffer 2;
      size = load 4 buffer 4;
      mtime = load 8 buffer 8;
      ctime = load 8 buffer 16;
      atime = load 8 buffer 8;
    }

-- The loop of `do_readdir`: the names in the data of an answer, from `at` on. Each round reads two
-- bytes at least, so one round more than there are bytes is enough.
unfoldable pub read_names : ℕ → Package → ℕ → Option (List (List ℕ))
read_names zero message at = none
read_names (suc fuel) message at =
    if ltb at message.size
    then if leb (at + 2) message.size
      then (let len = load 2 message.content at in
          let rest = read_names fuel message (at + 2 + len) in
          if leb (at + 2 + len) message.size
          then (elim (read_string len message.content (at + 2)) [
            | none ↦ none
            | some name ↦ Option.map (λ names. name ∷ names) rest
          ])
          else none)
      else none
    else some []

-- What `do_readdir` hands to the filler: ".", ".." and the names of the answer, or -ENOENT.
unfoldable pub do_readdir : Package → Option (List (List ℕ))
do_readdir message = elim (message.message_id) [
  | Status.negsuc n ↦ none
  | Status.pos n ↦
      Option.map (λ names. (b'.' ∷ []) ∷ (b'.' ∷ b'.' ∷ []) ∷ names)
        (read_names (message.size + 1) message 0)
]

abbrev autorun : List ℕ
autorun = b'/' ∷ b'a' ∷ b'u' ∷ b't' ∷ b'o' ∷ b'r' ∷ b'u' ∷ b'n' ∷ b'.' ∷ b'i' ∷ b'n' ∷ b'f' ∷ []

module _ ⦃p : Platform⦄ where
  unfoldable pub correct_path : List ℕ → Bool
  correct_path path =
      not (p.string_starts_with path (b'/' ∷ b'.' ∷ [])) && not (str_eq path autorun)
