-- ===== src/Protocol/Paths.antt =====
-- Requests with paths alone: what the client serializes is what the server reads. A `stat` request is
-- read beyond its end.
use linuse_fs.Base.{ℕ, ◌+◌, ◌^◌, ◌<◌, ◌≡◌, none, some, List, [], ◌∷◌, arith, length}
use linuse_fs.Memory.{object_bytes, string_bytes}
use linuse_fs.Platform.{Platform}
use linuse_fs.Package.{Package, ◌>>=◌, buffer_string}
use linuse_fs.Package.Copies.{
  copied, take_buffer-some, take_buffer-none, HoldsString, HoldsString-memcpy, IsString,
  buffer_string-copied,
}
use linuse_fs.Identifier
use linuse_fs.Status.{Status}
use linuse_fs.Request.{Request, string_arg, path_request, request_of}
use linuse_fs.Protocol.Serialize.{
  serialize_path, serialize_remove, serialize_rmdir, serialize_stat, serialize_readdir,
  serialize_rename,
}
use linuse_fs.Protocol.Deserialize.{
  deserialize_path_int, deserialize_open, deserialize_remove, deserialize_rename, deserialize_id,
  deserialize,
}
use linuse_fs.Protocol.Strings.{
  stringed, serialize_string-stringed, string_serialized_size-eq, HoldsString-stringed,
  take_int-string, travel,
}

module _ ⦃p : Platform⦄ where
  abbrev pub path_message : ℕ → List ℕ → Package
  path_message id path = record {
    message_id = Status.pos id;
    size = length path + 3;
    content = stringed p.garbage 0 path;
  }

  pub serialize_path-eq :
      (id : ℕ) (path : List ℕ)
      → length path + 3 < 2 ^ 16
      → serialize_path id path ≡ some (path_message id path)
  unfolding serialize_path
  serialize_path-eq id path small = rw (
    string_serialized_size-eq path small,
    serialize_string-stringed (length path + 3) path p.garbage 0 (omega arith) (omega arith),
  )

  deserialize_remove-eq :
      (id : ℕ) (path : List ℕ)
      → length path + 3 < 2 ^ 16
      → deserialize_remove id (path_message id path)
        ≡ some (record {
          function_id = id;
          args = copied (path_message id path) p.garbage 2 (length path + 1) ∷ [];
        })
  unfolding deserialize_remove
  deserialize_remove-eq id path small =
      let m = path_message id path in
      rw (
        take_int-string m 0 path (HoldsString-stringed p.garbage 0 path (omega arith))
            (omega arith),
        take_buffer-some m p.garbage 2 (length path + 1) (omega arith),
      )

  read_path :
      (id : ℕ) (path : List ℕ)
      → IsString path
      → length path + 3 < 2 ^ 16
      → buffer_string (copied (path_message id path) p.garbage 2 (length path + 1)) ≡ some path
  read_path id path hs small =
      buffer_string-copied (path_message id path) p.garbage 0 path hs
        (HoldsString-stringed p.garbage 0 path (omega arith))

  -- The requests `remove`, `rmdir` and `readdir` reach the server with their path, for a path
  -- without a 0 that is shorter than 2 ^ 16 - 3 bytes.
  pub travel-serialize_path :
      (path : List ℕ)
      → IsString path
      → length path + 3 < 2 ^ 16
      → (travel (serialize_remove path) ≡ some (Request.remove path))
        × (travel (serialize_rmdir path) ≡ some (Request.rmdir path))
        × (travel (serialize_readdir path) ≡ some (Request.readdir path))
  unfolding serialize_remove serialize_rmdir serialize_readdir deserialize deserialize_id request_of
      path_request string_arg
  travel-serialize_path path hs small = (
    rw (
      serialize_path-eq Identifier.remove path small,
      deserialize_remove-eq Identifier.remove path small,
      read_path Identifier.remove path hs small,
    ),
    rw (
      serialize_path-eq Identifier.rmdir path small,
      deserialize_remove-eq Identifier.rmdir path small,
      read_path Identifier.rmdir path hs small,
    ),
    rw (
      serialize_path-eq Identifier.readdir path small,
      deserialize_remove-eq Identifier.readdir path small,
      read_path Identifier.readdir path hs small,
    ),
  )

  abbrev rename_message : List ℕ → List ℕ → Package
  rename_message old_path new_path = record {
    message_id = Status.pos Identifier.rename;
    size = length old_path + 3 + (length new_path + 3);
    content = stringed (stringed p.garbage 0 old_path) (length old_path + 3) new_path;
  }

  -- A `rename` request reaches the server with both of its paths, for strings without a 0 that
  -- are shorter than 2 ^ 16 - 3 bytes.
  pub travel-serialize_rename :
      (old_path new_path : List ℕ)
      → IsString old_path
      → IsString new_path
      → length old_path + 3 < 2 ^ 16
      → length new_path + 3 < 2 ^ 16
      → travel (serialize_rename old_path new_path) ≡ some (Request.rename old_path new_path)
  unfolding serialize_rename deserialize deserialize_id deserialize_rename request_of string_arg
  travel-serialize_rename old_path new_path ho hn small_old small_new =
      let m = rename_message old_path new_path in
      let size = length old_path + 3 + (length new_path + 3) in
      let at = length old_path + 3 in
      let e : 2 + (length old_path + 1) ≡ at = omega arith in
      let e' : 2 + (length old_path + 1) + 2 ≡ at + 2 = omega arith in
      let first : HoldsString m.content 0 old_path =
        HoldsString-memcpy (at + 2) (string_bytes new_path) 0 (length new_path + 1)
          (HoldsString-memcpy at (object_bytes (length new_path + 1)) 0 2
            (HoldsString-stringed p.garbage 0 old_path (omega arith)) (omega arith))
          (omega arith) in
      let second : HoldsString m.content at new_path =
        HoldsString-stringed (stringed p.garbage 0 old_path) at new_path (omega arith) in
      rw (
        string_serialized_size-eq old_path small_old,
        string_serialized_size-eq new_path small_new,
        serialize_string-stringed size old_path p.garbage 0 (omega arith) (omega arith),
        serialize_string-stringed size new_path (stringed p.garbage 0 old_path) at (omega arith)
            (omega arith),
        take_int-string m 0 old_path first (omega arith),
        take_buffer-some m p.garbage 2 (length old_path + 1) (omega arith),
        e,
        take_int-string m at new_path second (omega arith),
        take_buffer-some m p.garbage (at + 2) (length new_path + 1) (omega arith),
        buffer_string-copied m p.garbage 0 old_path ho first,
        buffer_string-copied m p.garbage at new_path hn second,
      )

  -- A `stat` request carries a path alone, and the server reads it as a path and a mode, which
  -- reads two bytes behind the package's data, whatever the path, if it is shorter than 2 ^ 16
  -- - 3 bytes.
  pub travel-serialize_stat :
      (path : List ℕ) → length path + 3 < 2 ^ 16 → (serialize_stat path >>= deserialize) ≡ none
  unfolding serialize_stat deserialize deserialize_id deserialize_open deserialize_path_int
  travel-serialize_stat path small =
      let m = path_message Identifier.stat path in
      rw (
        serialize_path-eq Identifier.stat path small,
        take_int-string m 0 path (HoldsString-stringed p.garbage 0 path (omega arith))
            (omega arith),
        take_buffer-some m p.garbage 2 (length path + 1) (omega arith),
        take_buffer-none m p.garbage (2 + (length path + 1)) 2 (omega arith),
      )
