-- ===== src/Fuse/Effects.antt =====
-- What the callbacks of sac-cli/src/fuse.c do, in terms of the operations of sac-fs/src/sacio.c on the
-- server's disk.
use linuse_fs.Base.{
  ℕ, ◌+◌, ◌^◌, ◌%◌, ◌≤◌, ◌<◌, ◌≡◌, refl, ◌||◌, Option, none, some, List, [], ◌∷◌, length, arith,
  str_eq, true, false, ◌==◌, if◌then◌else◌,
}
use linuse_fs.Platform.{Platform}
use linuse_fs.Disk.{Fs, Cmd, pure, ◌>>=◌}
use linuse_fs.Disk.Runs.{and_then_assoc, and_then_ext}
use linuse_fs.Package.{Package, Function}
use linuse_fs.Package.Copies.{IsString}
use linuse_fs.Identifier
use linuse_fs.Status.{Status, success}
use linuse_fs.Request.{Request}
use linuse_fs.Protocol.Serialize.{
  serialize_open, serialize_close, serialize_remove, serialize_mkdir, serialize_rmdir,
  serialize_rename, serialize_truncate,
}
use linuse_fs.Protocol.Paths.{travel-serialize_path, travel-serialize_rename}
use linuse_fs.Protocol.PathNumber.{
  travel-serialize_open, travel-serialize_mkdir, travel-serialize_truncate,
}
use linuse_fs.Protocol.Numbers.{travel-serialize_read}
use linuse_fs.Protocol.Sendable.{
  serialize_path-IsSendable, serialize_path_mode-IsSendable, serialize_rename-IsSendable,
  serialize_truncate-IsSendable, serialize_close-IsSendable,
}
use linuse_fs.Server.Response.{
  mkdir_response, remove_response, rmdir_response, rename_response, truncate_response,
  open_response, close_response,
}
use linuse_fs.Server.Execute.{handle, signed}
use linuse_fs.Sacio.File.{sac_open, sac_close, sac_remove}
use linuse_fs.Sacio.Tree.{sac_mkdir, sac_rmdir, sac_rename}
use linuse_fs.Sacio.Data.{sac_truncate}
use linuse_fs.Client.{null, string, serialize_function}
use linuse_fs.Client.Exchange.{server}
use linuse_fs.Fuse.{correct_path}
use linuse_fs.Fuse.Callbacks.{
  int32, do_mkdir, do_remove, do_rmdir, do_rename, do_truncate, do_release, do_open, do_create,
  open_with, open_flags, create_flags, eacces, enotempty,
}
use linuse_fs.Fuse.Calls.{result_of-respond}

-- What an opened file gives: -EACCES, or the descriptor that is stored.
abbrev pub opened : Status → Status × Option ℕ
opened (Status.negsuc n) = (eacces, none)
opened (Status.pos n) = (success, some n)

-- What a removed directory gives: -ENOTEMPTY for -2.
abbrev pub removed : Status → Status
removed (Status.negsuc n) = if n == 1 then enotempty else Status.negsuc n
removed (Status.pos n) = Status.pos n

module _ ⦃p : Platform⦄ (local_fs : Function → Cmd Package) where
  -- Making a directory through the mounted file system has the effect and the result (as a C
  -- int) of `sac_mkdir` on the server's disk, however that ends, for a path without a 0 that is
  -- shorter than 2 ^ 16 - 5 bytes.
  pub do_mkdir-sac_mkdir :
      (path : List ℕ) (mode : ℕ) (s : Fs)
      → IsString path
      → length path + 5 < 2 ^ 16
      → do_mkdir (server local_fs) path mode s ≡ (sac_mkdir path >>= λ st. pure (int32 st)) s
  unfolding do_mkdir serialize_function serialize_mkdir handle mkdir_response
  do_mkdir-sac_mkdir path mode s hs small =
      result_of-respond local_fs Identifier.mkdir (string path) null mode 0 0
        (serialize_mkdir path mode) (Request.mkdir path) (sac_mkdir path) s refl
        (λ m h. serialize_path_mode-IsSendable Identifier.mkdir path mode m h (omega arith))
        (travel-serialize_mkdir path mode hs small) refl

  -- Removing a file through the mounted file system has the effect and the result (as a C int) of
  -- `sac_remove` on the server's disk, however that ends, for a path without a 0 that is shorter
  -- than 2 ^ 16 - 3 bytes.
  pub do_remove-sac_remove :
      (path : List ℕ) (s : Fs)
      → IsString path
      → length path + 3 < 2 ^ 16
      → do_remove (server local_fs) path s ≡ (sac_remove path >>= λ st. pure (int32 st)) s
  unfolding do_remove serialize_function serialize_remove handle remove_response
  do_remove-sac_remove path s hs small =
      result_of-respond local_fs Identifier.remove (string path) null 0 0 0 (serialize_remove path)
        (Request.remove path) (sac_remove path) s refl
        (λ m h. serialize_path-IsSendable Identifier.remove path m h (omega arith))
        ((travel-serialize_path path hs small).0) refl

  -- Removing a directory through the mounted file system has the effect of `sac_rmdir` on the
  -- server's disk, however that ends, for a path without a 0 that is shorter than 2 ^ 16 - 3
  -- bytes and is neither "." nor "..". The result -2 becomes -ENOTEMPTY, any other is handed on
  -- as a C int.
  pub do_rmdir-sac_rmdir :
      (path : List ℕ) (s : Fs)
      → IsString path
      → length path + 3 < 2 ^ 16
      → (str_eq path (b'.' ∷ []) || str_eq path (b'.' ∷ b'.' ∷ [])) ≡ false
      → do_rmdir (server local_fs) path s ≡ (sac_rmdir path >>= λ st. pure (removed (int32 st))) s
  unfolding do_rmdir serialize_function serialize_rmdir handle rmdir_response
  do_rmdir-sac_rmdir path s hs small named =
      rw
        (
          named,
          result_of-respond local_fs Identifier.rmdir (string path) null 0 0 0
              (serialize_rmdir path) (Request.rmdir path) (sac_rmdir path) s refl
              (λ m h. serialize_path-IsSendable Identifier.rmdir path m h (omega arith))
              ((travel-serialize_path path hs small).1) refl,
          and_then_assoc (sac_rmdir path s) (λ st. pure (int32 st)),
        )
        (and_then_ext (sac_rmdir path s) _ _ λ st s'. ground arith)

  -- Renaming through the mounted file system has the effect and the result (as a C int) of
  -- `sac_rename` on the server's disk, however that ends, for paths without a 0 that are shorter
  -- than 2 ^ 16 - 3 bytes.
  pub do_rename-sac_rename :
      (old_path new_path : List ℕ) (s : Fs)
      → IsString old_path
      → IsString new_path
      → length old_path + 3 < 2 ^ 16
      → length new_path + 3 < 2 ^ 16
      → do_rename (server local_fs) old_path new_path s
        ≡ (sac_rename old_path new_path >>= λ st. pure (int32 st)) s
  unfolding do_rename serialize_function handle rename_response
  do_rename-sac_rename old_path new_path s ho hn small_old small_new =
      result_of-respond local_fs Identifier.rename (string old_path) (string new_path) 0 0 0
        (serialize_rename old_path new_path) (Request.rename old_path new_path)
        (sac_rename old_path new_path) s refl (serialize_rename-IsSendable old_path new_path)
        (travel-serialize_rename old_path new_path ho hn small_old small_new) refl

  -- Truncating a file through the mounted file system has the effect and the result (as a C int)
  -- of `sac_truncate` on the server's disk, however that ends, for a path without a 0 that is
  -- shorter than 2 ^ 16 - 3 bytes and a length that fits the off_t of both programs, which has at
  -- most 8 bytes; `sac_truncate` gets the length as the signed number that the off_t stands for.
  pub do_truncate-sac_truncate :
      (path : List ℕ) (size : ℕ) (s : Fs)
      → IsString path
      → length path + 3 < 2 ^ 16
      → p.off_t_size ≤ 8
      → size < 256 ^ p.off_t_size
      → do_truncate (server local_fs) path size s
        ≡ (sac_truncate path (signed p.off_t_size size) >>= λ st. pure (int32 st)) s
  unfolding do_truncate serialize_function handle truncate_response
  do_truncate-sac_truncate path size s hs small narrow fits =
      result_of-respond local_fs Identifier.truncate (string path) null size 0 0
        (serialize_truncate path size) (Request.truncate path size)
        (sac_truncate path (signed p.off_t_size size)) s refl
        (λ m h. serialize_truncate-IsSendable path size m narrow h)
        (travel-serialize_truncate path size hs small fits) refl

  -- Closing a file through the mounted file system, for a path that is not hidden, has the effect
  -- and the result (as a C int) of `sac_close` with the low 16 bits of the descriptor.
  pub do_release-sac_close :
      (path : List ℕ) (fd : ℕ) (s : Fs)
      → correct_path path ≡ true
      → do_release (server local_fs) path fd s
        ≡ (sac_close (fd % 2 ^ 16) >>= λ st. pure (int32 st)) s
  unfolding do_release serialize_function handle close_response
  do_release-sac_close path fd s shown = rw shown (
      result_of-respond local_fs Identifier.close null null fd 0 0 (serialize_close fd)
        (Request.close (fd % 2 ^ 16)) (sac_close (fd % 2 ^ 16)) s refl
        (serialize_close-IsSendable fd) ((travel-serialize_read fd 0 0).0) refl)

  open_with-sac_open :
      (path : List ℕ) (flags : ℕ) (s : Fs)
      → IsString path
      → length path + 5 < 2 ^ 16
      → open_with (server local_fs) path flags s
        ≡ (sac_open path >>= λ st. pure (opened (int32 st))) s
  unfolding open_with serialize_function serialize_open handle open_response
  open_with-sac_open path flags s hs small =
      rw
        (
          result_of-respond local_fs Identifier.open_file (string path) null flags 0 0
              (serialize_open path flags) (Request.open_file path (flags % 2 ^ 16)) (sac_open path)
              s refl
              (λ m h.
                serialize_path_mode-IsSendable Identifier.open_file path flags m h (omega arith))
              (travel-serialize_open path flags hs small) refl,
          and_then_assoc (sac_open path s) (λ st. pure (int32 st)),
        )
        (and_then_ext (sac_open path s) _ _ λ st s'. ground arith)

  -- Opening a file that is not hidden, and creating one, through the mounted file system both have
  -- the effect of `sac_open` on the server's disk, however that ends, for a path without a 0 that
  -- is shorter than 2 ^ 16 - 5 bytes. A result that is negative as a C int becomes -EACCES, any
  -- other is the descriptor that is stored.
  pub do_open-sac_open :
      (path : List ℕ) (s : Fs)
      → IsString path
      → length path + 5 < 2 ^ 16
      → correct_path path ≡ true
      → let run = (sac_open path >>= λ st. pure (opened (int32 st))) s in
        (do_open (server local_fs) path s ≡ run) × (do_create (server local_fs) path s ≡ run)
  unfolding do_open do_create
  do_open-sac_open path s hs small shown = (
    rw shown (open_with-sac_open path open_flags s hs small),
    open_with-sac_open path create_flags s hs small,
  )
