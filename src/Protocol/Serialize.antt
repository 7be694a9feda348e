-- ===== src/Protocol/Serialize.antt =====
-- The functions serialize_* of mtserver/src/serialization.c, which the client calls.
use linuse_fs.Base.{ℕ, ◌+◌, ◌%◌, ◌^◌, Option, some, List, length}
use linuse_fs.Memory.{Bytes, object_bytes, string_bytes}
use linuse_fs.Platform.{Platform}
use linuse_fs.Package.{Package, ◌>>=◌ as bind, u16, put}
use linuse_fs.Status.{Status}
use linuse_fs.Identifier

infixl 5 ◌>>=◌
abbrev ◌>>=◌ : {A B : Type 0} → Option A → (A → Option B) → Option B
m >>= k = bind m k

-- The result is a u_int16_t.
unfoldable pub string_serialized_size : List ℕ → ℕ
string_serialized_size string = u16 (2 + length string + 1)

-- The length with the terminator, and the characters, at `at` of a buffer of `size` bytes.
unfoldable pub serialize_string : ℕ → List ℕ → Bytes → ℕ → Option Bytes
serialize_string size string buffer at =
    let n = u16 (length string + 1) in
    bind (put size buffer at (object_bytes n) 2)
      λ buffer'. put size buffer' (at + 2) (string_bytes string) n

abbrev pub make_package : ℕ → ℕ → Bytes → Package
make_package id size content = record { message_id = Status.pos id; size = size; content = content }

module _ ⦃p : Platform⦄ where
  unfoldable pub serialize_path : ℕ → List ℕ → Option Package
  unfolding string_serialized_size serialize_string
  serialize_path message_id path = do
    let size = string_serialized_size path
    content ← serialize_string size path p.garbage 0
    some (make_package message_id size content)

  -- A path and a mode of two bytes: `serialize_open` and `serialize_mkdir`.
  unfoldable pub serialize_path_mode : ℕ → List ℕ → ℕ → Option Package
  unfolding string_serialized_size serialize_string
  serialize_path_mode message_id path mode = do
    let size = string_serialized_size path + 2
    content ← serialize_string size path p.garbage 0
    content' ← put size content (string_serialized_size path) (object_bytes (u16 mode)) 2
    some (make_package message_id size content')

  unfoldable pub serialize_open : List ℕ → ℕ → Option Package
  unfolding serialize_path_mode
  serialize_open path mode = serialize_path_mode Identifier.open_file path mode

  unfoldable pub serialize_close : ℕ → Option Package
  serialize_close fd = do
    content ← put 2 p.garbage 0 (object_bytes (u16 fd)) 2
    some (make_package Identifier.close 2 content)

  -- The places of the data and of the offset are counted with sizeof(count), the size of a size_t.
  unfoldable pub serialize_write : ℕ → Bytes → ℕ → ℕ → Option Package
  serialize_write fd buffer count offset = do
    let scount = count % 2 ^ 32
    let size = (2 + 4 + scount + 4) % 2 ^ 32
    b1 ← put size p.garbage 0 (object_bytes (u16 fd)) 2
    b2 ← put size b1 2 (object_bytes count) 4
    b3 ← put size b2 (2 + p.pointer_size) buffer scount
    b4 ← put size b3 (2 + p.pointer_size + count) (object_bytes (offset % 2 ^ 32)) 4
    some (make_package Identifier.write size b4)

  unfoldable pub serialize_read : ℕ → ℕ → ℕ → Option Package
  serialize_read fd count offset = do
    b1 ← put 10 p.garbage 0 (object_bytes (u16 fd)) 2
    b2 ← put 10 b1 2 (object_bytes (count % 2 ^ 32)) 4
    b3 ← put 10 b2 6 (object_bytes (offset % 2 ^ 32)) 4
    some (make_package Identifier.read 10 b3)

  unfoldable pub serialize_remove : List ℕ → Option Package
  unfolding serialize_path
  serialize_remove path = serialize_path Identifier.remove path

  unfoldable pub serialize_mkdir : List ℕ → ℕ → Option Package
  unfolding serialize_path_mode
  serialize_mkdir path mode = serialize_path_mode Identifier.mkdir path mode

  unfoldable pub serialize_rmdir : List ℕ → Option Package
  unfolding serialize_path
  serialize_rmdir path = serialize_path Identifier.rmdir path

  unfoldable pub serialize_stat : List ℕ → Option Package
  unfolding serialize_path
  serialize_stat path = serialize_path Identifier.stat path

  unfoldable pub serialize_readdir : List ℕ → Option Package
  unfolding serialize_path
  serialize_readdir path = serialize_path Identifier.readdir path

  unfoldable pub serialize_rename : List ℕ → List ℕ → Option Package
  unfolding string_serialized_size serialize_string
  serialize_rename old_path new_path = do
    let size = string_serialized_size old_path + string_serialized_size new_path
    b1 ← serialize_string size old_path p.garbage 0
    b2 ← serialize_string size new_path b1 (string_serialized_size old_path)
    some (make_package Identifier.rename size b2)

  -- The length is given by the bytes of an off_t.
  unfoldable pub serialize_truncate : List ℕ → ℕ → Option Package
  unfolding string_serialized_size serialize_string
  serialize_truncate path length = do
    let size = string_serialized_size path + p.off_t_size
    b1 ← serialize_string size path p.garbage 0
    b2 ← put size b1 (string_serialized_size path) (object_bytes length) p.off_t_size
    some (make_package Identifier.truncate size b2)
