-- ===== src/Server/Response.antt =====
-- mtserver/src/fs_sac.c: the operations of sacio.c, their results put into packages.
use linuse_fs.Base.{
  ℕ, ◌+◌, ◌-◌, ◌%◌, ◌^◌, Option, none, some, List, [], ◌∷◌, ltb, if◌then◌else◌, length,
}
use linuse_fs.Memory.{Bytes, memcpy, object_bytes}
use linuse_fs.Platform.{Platform}
use linuse_fs.Disk.{Cmd, pure, ◌>>=◌, lift}
use linuse_fs.Package.{Package, ◌>>=◌ as bind}
use linuse_fs.Status.{Status, success, failure}
use linuse_fs.Protocol.Serialize.{string_serialized_size, serialize_string}
use linuse_fs.Sacio.File.{Stat, sac_open, sac_close, sac_remove, sac_stat}
use linuse_fs.Sacio.Tree.{sac_mkdir, sac_rmdir, sac_readdir, sac_rename}
use linuse_fs.Sacio.Data.{sac_write, sac_read, sac_truncate}

-- 2 for a directory and 1 for a file, then the number, the size and the two dates.
unfoldable pub stat_to_buffer : Stat → Bytes → Bytes
stat_to_buffer st b0 =
    let b1 = memcpy b0 0 (object_bytes (if st.is_dir then 2 else 1)) 0 2 in
    let b2 = memcpy b1 2 (object_bytes (st.ino % 2 ^ 16)) 0 2 in
    let b3 = memcpy b2 4 (object_bytes (st.size % 2 ^ 32)) 0 4 in
    let b4 = memcpy b3 8 (object_bytes (st.mtime % 2 ^ 64)) 0 8 in
    memcpy b4 16 (object_bytes (st.ctime % 2 ^ 64)) 0 8

module _ ⦃p : Platform⦄ where
  -- fs_local.c
  unfoldable pub create_default_package : Status → Package
  create_default_package id = record { message_id = id; size = 0; content = p.garbage }

  -- The result of `sac_read` as a size_t; -1 is the largest one.
  unfoldable pub size_of : Status → ℕ
  size_of (Status.pos n) = n
  size_of (Status.negsuc n) = 256 ^ p.pointer_size - 1 - n

  -- `package->size` is unsigned, so the test whether it is below 0 fails, and the status is 0.
  unfoldable pub read_response : Status → ℕ → Bytes → Package
  unfolding size_of
  read_response result count content =
      let size_read = size_of result in
      record {
        message_id = success;
        size = (if ltb size_read count then size_read else count) % 2 ^ 32;
        content = content;
      }

  unfoldable pub stat_response : Option Stat → Package
  unfolding create_default_package stat_to_buffer
  stat_response none = create_default_package failure
  stat_response (some st) = record {
    message_id = success;
    size = 24;
    content = stat_to_buffer st p.garbage;
  }

  -- The data grows by the serialized name. `none` is a write outside it.
  unfoldable pub append_name : Package → List ℕ → Option Package
  append_name message name =
      let size = (message.size + string_serialized_size name) % 2 ^ 32 in
      bind
        (serialize_string size name (memcpy p.garbage 0 message.content 0 message.size)
          message.size)
        λ content. some (record { message_id = message.message_id; size = size; content = content })

  -- The loop over the names.
  unfoldable pub append_names : List (List ℕ) → Package → Option Package
  append_names [] message = some message
  append_names (name ∷ names) message = bind (append_name message name) λ m. append_names names m

  unfoldable pub readdir_response : Option (List (List ℕ)) → Option Package
  readdir_response none = some (create_default_package failure)
  readdir_response (some names) = append_names names (create_default_package success)

  unfoldable pub respond : Cmd Status → Cmd Package
  unfolding create_default_package
  respond call = do status ← call; pure (create_default_package status)

  unfoldable pub open_response : List ℕ → Cmd Package
  unfolding respond sac_open
  open_response path = respond (sac_open path)

  unfoldable pub close_response : ℕ → Cmd Package
  unfolding respond sac_close
  close_response fd = respond (sac_close fd)

  unfoldable pub write_response : ℕ → Bytes → ℕ → ℕ → Cmd Package
  unfolding create_default_package sac_write
  write_response fd buffer count offset = do
    size ← sac_write fd buffer count offset
    pure (create_default_package (Status.pos size))

  unfoldable pub sac_read_response : ℕ → ℕ → ℕ → Cmd Package
  unfolding read_response sac_read
  sac_read_response fd count offset = do
    (result, content) ← sac_read fd p.garbage count offset
    pure (read_response result count content)

  unfoldable pub remove_response : List ℕ → Cmd Package
  unfolding respond sac_remove
  remove_response path = respond (sac_remove path)

  unfoldable pub mkdir_response : List ℕ → Cmd Package
  unfolding respond sac_mkdir
  mkdir_response path = respond (sac_mkdir path)

  unfoldable pub rmdir_response : List ℕ → Cmd Package
  unfolding respond sac_rmdir
  rmdir_response path = respond (sac_rmdir path)

  unfoldable pub sac_stat_response : List ℕ → Cmd Package
  unfolding stat_response sac_stat
  sac_stat_response path = do result ← sac_stat path; pure (stat_response result)

  unfoldable pub sac_readdir_response : List ℕ → Cmd Package
  unfolding lift readdir_response sac_readdir
  sac_readdir_response path = do entries ← sac_readdir path; lift (readdir_response entries)

  unfoldable pub rename_response : List ℕ → List ℕ → Cmd Package
  unfolding respond sac_rename
  rename_response old_path new_path = respond (sac_rename old_path new_path)

  unfoldable pub truncate_response : List ℕ → Status → Cmd Package
  unfolding respond sac_truncate
  truncate_response path length = respond (sac_truncate path length)
