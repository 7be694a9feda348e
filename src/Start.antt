-- ===== src/Start.antt =====
-- How the programs are started: `validate_input` and `set_config` of sac-fs/src/sac.c, and
-- `get_ip_and_port_or_default` of sac-cli/src/fuse.c.
use linuse_fs.Base.{ℕ, Bool, false, ◌||◌, not, Option, none, some, List, [], ◌∷◌, if◌then◌else◌}
use linuse_fs.Platform.{Platform}
use linuse_fs.Disk.{Cmd, pure, exit, ◌>>◌}
use linuse_fs.Format.{format_disk}

-- The globals USE_LINUX_FS and LISTEN_PORT.
pub record Settings : Type 0 where
  pub use_linux_fs : Bool
  pub listen_port : List ℕ

-- What is taken from outside the repository: access(), the configuration files and
-- `string_contains` of so-commons-library. A number that the configuration holds is given as what
-- `string_itoa` makes of it, and as its truth value.
pub record Startup : Type 0 where
  pub access : List ℕ → Bool
  pub config_number : List ℕ → List ℕ → List ℕ
  pub config_flag : List ℕ → List ℕ → Bool
  pub string_contains : List ℕ → List ℕ → Bool

abbrev pub default_port : List ℕ
default_port = b'2' ∷ b'1' ∷ b'0' ∷ b'0' ∷ b'0' ∷ []

abbrev pub local_ip : List ℕ
local_ip = b'1' ∷ b'2' ∷ b'7' ∷ b'.' ∷ b'0' ∷ b'.' ∷ b'0' ∷ b'.' ∷ b'1' ∷ []

abbrev pub default_settings : Settings
default_settings = record { use_linux_fs = false; listen_port = default_port }

-- "LISTEN_PORT", "USE_LINUX_FS", ".cfg", "-f", "-format" and ":".
abbrev listen_port_key : List ℕ
listen_port_key = b'L' ∷ b'I' ∷ b'S' ∷ b'T' ∷ b'E' ∷ b'N' ∷ b'_' ∷ b'P' ∷ b'O' ∷ b'R' ∷ b'T' ∷ []

abbrev use_linux_fs_key : List ℕ
use_linux_fs_key =
    b'U' ∷ b'S' ∷ b'E' ∷ b'_' ∷ b'L' ∷ b'I' ∷ b'N' ∷ b'U' ∷ b'X' ∷ b'_' ∷ b'F' ∷ b'S' ∷ []

abbrev config_ending : List ℕ
config_ending = b'.' ∷ b'c' ∷ b'f' ∷ b'g' ∷ []

abbrev format_flag : List ℕ
format_flag = b'-' ∷ b'f' ∷ []

abbrev long_format_flag : List ℕ
long_format_flag = b'-' ∷ b'f' ∷ b'o' ∷ b'r' ∷ b'm' ∷ b'a' ∷ b't' ∷ []

abbrev colon : List ℕ
colon = b':' ∷ []

module _ ⦃p : Platform⦄ (outside : Startup) where
  unfoldable pub set_config : List ℕ → Cmd Settings
  set_config path_config =
      if not (outside.access path_config)
      then exit
      else pure (record {
        use_linux_fs = outside.config_flag path_config use_linux_fs_key;
        listen_port = outside.config_number path_config listen_port_key;
      })

  -- `argv`, the name of the program first.
  unfoldable pub validate_input : List (List ℕ) → Cmd Settings
  unfolding set_config
  validate_input (program ∷ []) = pure default_settings
  validate_input (program ∷ argument ∷ []) =
      if p.string_ends_with argument config_ending
      then set_config argument
      else if p.string_ends_with argument format_flag
          || p.string_ends_with argument long_format_flag
      then (do format_disk; exit)
      else exit
  validate_input [] = exit
  validate_input (program ∷ argument ∷ other ∷ more) = exit

  -- The address and the port, for the argument of --ip if there is one.
  unfoldable pub get_ip_and_port_or_default : Option (List ℕ) → Cmd (List (List ℕ))
  get_ip_and_port_or_default none = pure (local_ip ∷ default_port ∷ [])
  get_ip_and_port_or_default (some ip_port) =
      if not (outside.string_contains ip_port colon)
      then exit
      else pure (p.string_split ip_port colon)
