-- ===== src/Local.antt =====
-- mtserver/src/fs_local.c: the operations of the server on the file system of the machine. The calls of
-- the operating system are a parameter, with a state of its own.
use linuse_fs.Base.{ℕ, ◌-◌, ◌%◌, ◌^◌, Option, none, some, List, [], ◌∷◌, length}
use linuse_fs.Memory.{Bytes, string_bytes}
use linuse_fs.Platform.{Platform}
use linuse_fs.Package.{Package}
use linuse_fs.Status.{Status, success, failure}
use linuse_fs.Request.{Request}
use linuse_fs.Sacio.File.{Stat}
use linuse_fs.Server.Response.{create_default_package, stat_to_buffer, append_names}
use linuse_fs.Server.Execute.{signed}
use mathlib.Core.Option

-- The calls of the operating system and of so-commons-library that the file makes, over the state
-- `World` of the machine. `read` gives what the buffer holds afterwards. `opendir` gives the names
-- that `readdir` gives one after the other until it gives NULL, or nothing for NULL.
pub record Os (World : Type 0) : Type 0 where
  pub open_file : List ℕ → ℕ → ℕ → World → Status × World
  pub close : ℕ → World → Status × World
  pub lseek : ℕ → ℕ → World → World
  pub write : ℕ → Bytes → ℕ → World → Status × World
  pub read : ℕ → Bytes → ℕ → World → Status × Bytes × World
  pub remove : List ℕ → World → Status × World
  pub mkdir : List ℕ → ℕ → World → Status × World
  pub rmdir : List ℕ → World → Status × World
  pub stat : List ℕ → World → Status × Stat × World
  pub opendir : List ℕ → World → Option (List (List ℕ)) × World
  pub rename : List ℕ → List ℕ → World → Status × World
  pub truncate : List ℕ → Status → World → Status × World
  pub string_from_format : List ℕ → List ℕ → List ℕ

abbrev base_path : List ℕ
base_path =
    b'/' ∷ b'h' ∷ b'o' ∷ b'm' ∷ b'e' ∷ b'/' ∷ b'u' ∷ b't' ∷ b'n' ∷ b's' ∷ b'o' ∷ b'/' ∷ b's' ∷ b'a'
    ∷ b'c' ∷ b'-' ∷ b'r' ∷ b'o' ∷ b'o' ∷ b't' ∷ []

-- 0777
abbrev all_modes : ℕ
all_modes = 511

-- A number as an unsigned one of 32 bits.
unfoldable pub unsigned32 : Status → ℕ
unsigned32 (Status.pos n) = n % 2 ^ 32
unsigned32 (Status.negsuc n) = 2 ^ 32 - 1 - n % 2 ^ 32

-- A call that gives an answer, or leaves its objects.
abbrev pub Local : Type 0 → Type 0 → Type 0
Local World A = World → Option (A × World)

module _ ⦃p : Platform⦄ {World : Type 0} (os : Os World) where
  unfoldable pub real_file_path : List ℕ → List ℕ
  real_file_path path_to_add = os.string_from_format base_path path_to_add

  -- The package for a status.
  unfoldable pub answer : Status × World → Option (Package × World)
  unfolding create_default_package
  answer (status, w) = some (create_default_package status, w)

  unfoldable pub local_open : List ℕ → ℕ → Local World Package
  unfolding answer real_file_path
  local_open path mode w = answer (os.open_file (real_file_path path) mode all_modes w)

  unfoldable pub local_close : ℕ → Local World Package
  unfolding answer
  local_close fd w = answer (os.close fd w)

  unfoldable pub local_write : ℕ → Bytes → ℕ → ℕ → Local World Package
  unfolding answer
  local_write fd buffer bytes_to_write offset w =
      answer (os.write fd buffer bytes_to_write (os.lseek fd offset w))

  -- `package->size` is unsigned, so it is not below 0.
  unfoldable pub local_read : ℕ → ℕ → ℕ → Local World Package
  unfolding unsigned32
  local_read fd bytes_to_read offset w =
      let (size, bytes, w') = os.read fd p.garbage bytes_to_read (os.lseek fd offset w) in
      some (record { message_id = success; size = unsigned32 size; content = bytes }, w')

  unfoldable pub local_remove : List ℕ → Local World Package
  unfolding answer real_file_path
  local_remove path w = answer (os.remove (real_file_path path) w)

  unfoldable pub local_mkdir : List ℕ → ℕ → Local World Package
  unfolding answer real_file_path
  local_mkdir path mode w = answer (os.mkdir (real_file_path path) all_modes w)

  unfoldable pub local_rmdir : List ℕ → Local World Package
  unfolding answer real_file_path
  local_rmdir path w = answer (os.rmdir (real_file_path path) w)

  -- 24 bytes for what was found.
  unfoldable pub stat_package : Status → Stat → Package
  unfolding create_default_package stat_to_buffer
  stat_package (Status.pos n) st = record {
    message_id = Status.pos n;
    size = 24;
    content = stat_to_buffer st p.garbage;
  }
  stat_package (Status.negsuc n) st = create_default_package (Status.negsuc n)

  unfoldable pub local_stat : List ℕ → Local World Package
  unfolding stat_package real_file_path
  local_stat path w =
      let (status, st, w') = os.stat (real_file_path path) w in some (stat_package status st, w')

  -- `readdir` of NULL is an access outside every object. The loop appends each name.
  unfoldable pub readdir_package : Option (List (List ℕ)) → Option Package
  unfolding append_names create_default_package
  readdir_package none = none
  readdir_package (some names) = append_names names (create_default_package success)

  unfoldable pub local_readdir : List ℕ → Local World Package
  unfolding readdir_package real_file_path
  local_readdir path w =
      let (dir, w') = os.opendir (real_file_path path) w in
      Option.map (λ message. (message, w')) (readdir_package dir)

  unfoldable pub local_rename : List ℕ → List ℕ → Local World Package
  unfolding answer real_file_path
  local_rename old_path new_path w =
      answer (os.rename (real_file_path old_path) (real_file_path new_path) w)

  unfoldable pub local_truncate : List ℕ → Status → Local World Package
  unfolding answer real_file_path
  local_truncate path size w = answer (os.truncate (real_file_path path) size w)

  -- The cases of the switch of `execute` in mtserver/src/server.c for USE_LINUX_FS.
  unfoldable pub local_handle : Request → Local World Package
  unfolding local_open local_close local_write local_read local_remove local_mkdir local_rmdir
      local_stat local_readdir local_rename local_truncate create_default_package signed
  local_handle (Request.open_file path mode) = local_open path mode
  local_handle (Request.close fd) = local_close fd
  local_handle (Request.write fd buffer offset) =
      local_write fd (string_bytes buffer) (length buffer) offset
  local_handle (Request.read fd count offset) = local_read fd count offset
  local_handle (Request.remove path) = local_remove path
  local_handle (Request.mkdir path) = local_mkdir path 0
  local_handle (Request.rmdir path) = local_rmdir path
  local_handle (Request.stat path) = local_stat path
  local_handle (Request.readdir path) = local_readdir path
  local_handle (Request.rename old_path new_path) = local_rename old_path new_path
  local_handle (Request.truncate path length) = local_truncate path (signed p.off_t_size length)
  local_handle Request.unknown = λ w. some (create_default_package failure, w)
