-- ===== src/Server/Execute.antt =====
-- mtserver/src/server.c: one connection, from the bytes that come in to the answer. The thread list,
-- the sockets and the log are left out.
use linuse_fs.Base.{
  ℕ, zero, ◌-◌, ◌*◌, ◌^◌, Bool, Option, none, some, List, ltb, if◌then◌else◌, length,
}
use linuse_fs.Memory.{string_bytes}
use linuse_fs.Platform.{Platform}
use linuse_fs.Disk.{Cmd, pure, ◌>>=◌, lift}
use linuse_fs.Package.{Package, Function}
use linuse_fs.Request.{Request, request_of}
use linuse_fs.Status.{Status, failure}
use linuse_fs.Protocol.Deserialize.{deserialize}
use linuse_fs.Wire.{send_package, receive_package}
use linuse_fs.Server.Response.{
  create_default_package, open_response, close_response, write_response, sac_read_response,
  remove_response, mkdir_response, rmdir_response, sac_stat_response, sac_readdir_response,
  rename_response, truncate_response,
}

-- An off_t of `n` bytes as a signed number.
unfoldable pub signed : ℕ → ℕ → Status
signed n w = if ltb (2 * w) (256 ^ n) then Status.pos w else Status.negsuc (256 ^ n - 1 - w)

module _ ⦃p : Platform⦄ where
  -- The operation of each case of the switch.
  unfoldable pub handle : Request → Cmd Package
  unfolding open_response close_response write_response sac_read_response remove_response
      mkdir_response rmdir_response sac_stat_response sac_readdir_response rename_response
      truncate_response create_default_package signed
  handle (Request.open_file path mode) = open_response path
  handle (Request.close fd) = close_response fd
  handle (Request.write fd buffer offset) =
      write_response fd (string_bytes buffer) (length buffer) offset
  handle (Request.read fd count offset) = sac_read_response fd count offset
  handle (Request.remove path) = remove_response path
  handle (Request.mkdir path) = mkdir_response path
  handle (Request.rmdir path) = rmdir_response path
  handle (Request.stat path) = sac_stat_response path
  handle (Request.readdir path) = sac_readdir_response path
  handle (Request.rename old_path new_path) = rename_response old_path new_path
  handle (Request.truncate path length) = truncate_response path (signed p.off_t_size length)
  handle Request.unknown = pure (create_default_package failure)

module _ ⦃p : Platform⦄ (use_linux_fs : Bool) (local_fs : Function → Cmd Package) where
  -- The switch, for the file system of this project.
  unfoldable pub execute_sac : Function → Cmd Package
  unfolding request_of lift handle
  execute_sac f = do request ← lift (request_of f); handle request

  -- With USE_LINUX_FS the operations are those of fs_local.c, which `local_fs` stands for.
  unfoldable pub execute : Function → Cmd Package
  unfolding execute_sac
  execute f = if use_linux_fs then local_fs f else execute_sac f

  -- What a connection is answered, `none` if it does not begin with a handshake.
  unfoldable pub attend_connection : List ℕ → Cmd (Option (List ℕ))
  unfolding receive_package deserialize execute send_package lift
  attend_connection stream = do
    (handshake, stream') ← lift (receive_package stream)
    elim (handshake.message_id) [
      | Status.pos zero ↦ (do
        (message, _) ← lift (receive_package stream')
        f ← lift (deserialize message)
        response ← execute f
        pure (some (send_package response)))
      | _ ↦ pure none
    ]
