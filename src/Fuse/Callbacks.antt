-- ===== src/Fuse/Callbacks.antt =====
-- sac-cli/src/fuse.c: the callbacks, as requests to the server and what they return. The numbers of
-- the flags and of the errors are those of Linux (fcntl.h, errno.h).
use linuse_fs.Base.{
  ℕ, ◌+◌, ◌-◌, ◌%◌, ◌^◌, ◌||◌, not, Option, none, some, List, [], ◌∷◌, ◌++◌, ltb, ◌==◌,
  if◌then◌else◌, str_eq,
}
use linuse_fs.Memory.{Bytes, memcpy}
use linuse_fs.Platform.{Platform}
use linuse_fs.Disk.{Cmd, pure, crash, lift, ◌>>=◌}
use linuse_fs.Package.{Package}
use linuse_fs.Identifier
use linuse_fs.Status.{Status, success, failure}
use linuse_fs.Wire.{pattern64}
use linuse_fs.Client.{Peer, null, string, buffer, send_function}
use linuse_fs.Fuse.{FileStat, fill_stat_from_buffer, read_names, correct_path}

-- -ENOENT, -EACCES and -ENOTEMPTY.
abbrev pub enoent : Status
enoent = Status.negsuc 1

abbrev pub eacces : Status
eacces = Status.negsuc 12

abbrev pub enotempty : Status
enotempty = Status.negsuc 38

-- O_RDWR|O_CREAT, and O_CREAT|O_WRONLY|O_TRUNC.
abbrev pub open_flags : ℕ
open_flags = 66

abbrev pub create_flags : ℕ
create_flags = 577

-- A number of 32 bits as an `int`, and the conversion of a wider one to it.
abbrev pub signed32 : ℕ → Status
signed32 w = if ltb w (2 ^ 31) then Status.pos w else Status.negsuc (2 ^ 32 - 1 - w)

unfoldable pub int32 : Status → Status
int32 st = signed32 (pattern64 st % 2 ^ 32)

abbrev pub dots : List (List ℕ)
dots = (b'.' ∷ []) ∷ (b'.' ∷ b'.' ∷ []) ∷ []

-- The `int` that an answer carries: `int res = response->message_id`.
unfoldable pub result_of : Cmd Package → Cmd Status
result_of call = do response ← call; pure (int32 response.message_id)

module _ ⦃p : Platform⦄ (peer : Peer) where
  -- `do_open` and `do_create` store the descriptor in `fi->fh`; `none` leaves it alone.
  unfoldable pub open_with : List ℕ → ℕ → Cmd (Status × Option ℕ)
  open_with path flags = do
    fd ← result_of (send_function peer Identifier.open_file (string path) null flags 0 0)
    elim fd [ Status.negsuc n ↦ pure (eacces, none) | Status.pos n ↦ pure (success, some n) ]

  unfoldable pub do_open : List ℕ → Cmd (Status × Option ℕ)
  do_open path = if not (correct_path path) then pure (success, none) else open_with path open_flags

  unfoldable pub do_create : List ℕ → Cmd (Status × Option ℕ)
  do_create path = open_with path create_flags

  -- The answer is copied to the caller's buffer of `size` bytes.
  unfoldable pub do_read : List ℕ → Bytes → ℕ → ℕ → ℕ → Cmd (Status × Bytes)
  do_read path target size offset fd =
      if not (correct_path path) then pure (success, target) else (do
        response ← send_function peer Identifier.read null null fd size offset
        if ltb size response.size
            then crash
            else pure (
              (elim (response.message_id) [
                | Status.pos n ↦ if n == 0 then signed32 response.size else int32 (Status.pos n)
                | Status.negsuc n ↦ int32 (Status.negsuc n)
              ]),
              memcpy target 0 response.content 0 response.size,
            ))

  unfoldable pub do_write : Bytes → ℕ → ℕ → ℕ → Cmd Status
  do_write bytes size offset fd =
      result_of (send_function peer Identifier.write (buffer bytes) null fd size offset)

  -- What is written to `stbuf`, if anything is.
  unfoldable pub do_getattr : List ℕ → Cmd (Status × Option FileStat)
  do_getattr path = if not (correct_path path) then pure (success, none) else (do
    response ← send_function peer Identifier.stat (string path) null 0 0 0
    elim (int32 response.message_id) [
      | Status.pos n ↦
          if n == 0
          then (if ltb response.size 24
              then crash
              else pure (success, some (fill_stat_from_buffer response.content)))
          else pure (enoent, none)
      | Status.negsuc n ↦ pure (enoent, none)
    ])

  -- The names that the filler is given.
  unfoldable pub do_readdir : List ℕ → Cmd (Status × List (List ℕ))
  do_readdir path = do
    response ← send_function peer Identifier.readdir (string path) null 0 0 0
    elim (response.message_id) [
      | Status.negsuc n ↦ pure (enoent, dots)
      | Status.pos n ↦ (do
        names ← lift (read_names (response.size + 1) response 0)
        pure (success, dots ++ names))
    ]

  unfoldable pub do_remove : List ℕ → Cmd Status
  do_remove path = result_of (send_function peer Identifier.remove (string path) null 0 0 0)

  unfoldable pub do_release : List ℕ → ℕ → Cmd Status
  do_release path fd =
      if not (correct_path path)
      then pure success
      else result_of (send_function peer Identifier.close null null fd 0 0)

  unfoldable pub do_mkdir : List ℕ → ℕ → Cmd Status
  do_mkdir path mode = result_of (send_function peer Identifier.mkdir (string path) null mode 0 0)

  unfoldable pub do_rmdir : List ℕ → Cmd Status
  do_rmdir path =
      if str_eq path (b'.' ∷ []) || str_eq path (b'.' ∷ b'.' ∷ []) then pure failure else (do
        res ← result_of (send_function peer Identifier.rmdir (string path) null 0 0 0)
        elim res [
          | Status.negsuc n ↦ pure (if n == 1 then enotempty else Status.negsuc n)
          | Status.pos n ↦ pure (Status.pos n)
        ])

  unfoldable pub do_truncate : List ℕ → ℕ → Cmd Status
  do_truncate path size =
      result_of (send_function peer Identifier.truncate (string path) null size 0 0)

  unfoldable pub do_rename : List ℕ → List ℕ → Cmd Status
  do_rename old_path new_path =
      result_of (send_function peer Identifier.rename (string old_path) (string new_path) 0 0 0)

-- The callbacks that ask nothing of the server.
unfoldable pub do_flush : List ℕ → Cmd Status
do_flush path = pure success

unfoldable pub do_opendir : List ℕ → Cmd Status
do_opendir path = pure success

unfoldable pub do_access : List ℕ → ℕ → Cmd Status
do_access path mode = pure success
