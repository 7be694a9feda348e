-- ===== src/Protocol/Sendable.antt =====
-- The packages that the client makes, and the sizes and ids that the wire carries.
use linuse_fs.Base.{ℕ, ◌+◌, ◌^◌, ◌%◌, ◌≤◌, ◌<◌, ◌≡◌, Option, none, some, List, arith, subst}
use linuse_fs.Memory.{Bytes, memcpy, object_bytes}
use linuse_fs.Platform.{Platform}
use linuse_fs.Package.{Package, ◌>>=◌, u16, put}
use linuse_fs.Package.Copies.{bind-eq_some}
use linuse_fs.Identifier
use linuse_fs.Wire.Stream.{IsInt64}
use linuse_fs.Protocol.Serialize.{
  string_serialized_size, serialize_string, make_package, serialize_path, serialize_path_mode,
  serialize_close, serialize_read, serialize_rename, serialize_truncate,
}

-- A package that the wire carries as it is.
pub record IsSendable (m : Package) : Type 0 where
  pub id : IsInt64 m.message_id
  pub small : m.size < 2 ^ 32

-- The last step of a serialization.
made-IsSendable :
    (o : Option Bytes) (id size : ℕ) (m : Package)
    → (o >>= λ content. some (make_package id size content)) ≡ some m
    → id < 12
    → size < 2 ^ 32
    → IsSendable m
made-IsSendable none id size m h known small = cc
made-IsSendable (some content) id size m h known small =
    let e : make_package id size content ≡ m = cc in
    subst IsSendable e (record { id = omega arith; small = small })

module _ ⦃p : Platform⦄ where
  pub serialize_path-IsSendable :
      (id : ℕ) (path : List ℕ) (m : Package)
      → serialize_path id path ≡ some m
      → id < 12
      → IsSendable m
  unfolding serialize_path string_serialized_size
  serialize_path-IsSendable id path m h known =
      made-IsSendable _ id (string_serialized_size path) m h known (omega arith)

  pub serialize_path_mode-IsSendable :
      (id : ℕ) (path : List ℕ) (mode : ℕ) (m : Package)
      → serialize_path_mode id path mode ≡ some m
      → id < 12
      → IsSendable m
  unfolding serialize_path_mode string_serialized_size
  serialize_path_mode-IsSendable id path mode m h known =
      let size = string_serialized_size path + 2 in
      let last : Bytes → Option Bytes =
        λ content. put size content (string_serialized_size path) (object_bytes (u16 mode)) 2 in
      let (content, e, h') =
        bind-eq_some (serialize_string size path p.garbage 0)
          (λ content. last content >>= λ c. some (make_package id size c)) h in
      made-IsSendable (last content) id size m h' known (omega arith)

  pub serialize_rename-IsSendable :
      (old_path new_path : List ℕ) (m : Package)
      → serialize_rename old_path new_path ≡ some m
      → IsSendable m
  unfolding serialize_rename string_serialized_size
  serialize_rename-IsSendable old_path new_path m h =
      let size = string_serialized_size old_path + string_serialized_size new_path in
      let last : Bytes → Option Bytes =
        λ content. serialize_string size new_path content (string_serialized_size old_path) in
      let (content, e, h') =
        bind-eq_some (serialize_string size old_path p.garbage 0)
          (λ content. last content >>= λ c. some (make_package Identifier.rename size c)) h in
      made-IsSendable (last content) Identifier.rename size m h' (omega arith) (omega arith)

  pub serialize_truncate-IsSendable :
      (path : List ℕ) (w : ℕ) (m : Package)
      → p.off_t_size ≤ 8
      → serialize_truncate path w ≡ some m
      → IsSendable m
  unfolding serialize_truncate string_serialized_size
  serialize_truncate-IsSendable path w m narrow h =
      let size = string_serialized_size path + p.off_t_size in
      let last : Bytes → Option Bytes =
        λ content. put size content (string_serialized_size path) (object_bytes w) p.off_t_size in
      let (content, e, h') =
        bind-eq_some (serialize_string size path p.garbage 0)
          (λ content. last content >>= λ c. some (make_package Identifier.truncate size c)) h in
      made-IsSendable (last content) Identifier.truncate size m h' (omega arith) (omega arith)

  pub serialize_close-IsSendable :
      (fd : ℕ) (m : Package) → serialize_close fd ≡ some m → IsSendable m
  unfolding serialize_close
  serialize_close-IsSendable fd m h =
      made-IsSendable (put 2 p.garbage 0 (object_bytes (u16 fd)) 2) Identifier.close 2 m h
        (omega arith) (omega arith)

  pub serialize_read-IsSendable :
      (fd count offset : ℕ) (m : Package) → serialize_read fd count offset ≡ some m → IsSendable m
  unfolding serialize_read put
  serialize_read-IsSendable fd count offset m h =
      let b1 = memcpy p.garbage 0 (object_bytes (u16 fd)) 0 2 in
      let b2 = memcpy b1 2 (object_bytes (count % 2 ^ 32)) 0 4 in
      let b3 = memcpy b2 6 (object_bytes (offset % 2 ^ 32)) 0 4 in
      made-IsSendable (some b3) Identifier.read 10 m h (omega arith) (omega arith)
