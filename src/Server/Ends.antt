-- ===== src/Server/Ends.antt =====
-- Termination for the operations that the requests call (mtserver/src/fs_sac.c).
use linuse_fs.Base.{◌<◌, ◌≢◌}
use linuse_fs.Platform.{Platform}
use linuse_fs.Disk.{Fs, out_of_fuel}
use linuse_fs.Disk.Ends.{Ends, Ends-out_of_fuel, lift-Ends, ends}
use linuse_fs.Request.{Request}
use linuse_fs.Sacio.Ends.{sac_write-Ends, sac_read-Ends}
use linuse_fs.Sacio.Ends.Operations.{
  sac_open-Ends, sac_remove-Ends, sac_stat-Ends, sac_mkdir-Ends, sac_readdir-Ends, sac_rename-Ends,
  sac_truncate-Ends,
}
use linuse_fs.Server.Response.{
  respond, open_response, close_response, write_response, sac_read_response, remove_response,
  mkdir_response, sac_stat_response, sac_readdir_response, rename_response, truncate_response,
}
use linuse_fs.Server.Execute.{handle, signed}
use linuse_fs.Sacio.Data.{clamp, int_limit}

module _ ⦃p : Platform⦄ where
  -- Not an `rmdir`, and not a `truncate` to 2 ^ 31 bytes or more.
  abbrev pub HasEnd : Request → Type 0
  HasEnd (Request.rmdir path) = ⊥
  HasEnd (Request.truncate path length) = clamp (signed p.off_t_size length) < int_limit
  HasEnd (Request.open_file path mode) = Unit {0}
  HasEnd (Request.close fd) = Unit {0}
  HasEnd (Request.write fd buffer offset) = Unit {0}
  HasEnd (Request.read fd count offset) = Unit {0}
  HasEnd (Request.remove path) = Unit {0}
  HasEnd (Request.mkdir path) = Unit {0}
  HasEnd (Request.stat path) = Unit {0}
  HasEnd (Request.readdir path) = Unit {0}
  HasEnd (Request.rename old_path new_path) = Unit {0}
  HasEnd Request.unknown = Unit {0}

  handle-Ends : (r : Request) (s : Fs) → HasEnd r → Ends (handle r s)
  unfolding handle respond open_response close_response write_response sac_read_response
      remove_response mkdir_response sac_stat_response sac_readdir_response rename_response
      truncate_response
  handle-Ends (Request.open_file path mode) s other = search (ends, sac_open-Ends)
  handle-Ends (Request.close fd) s other = tt
  handle-Ends (Request.write fd buffer offset) s other = search (ends, sac_write-Ends)
  handle-Ends (Request.read fd count offset) s other = search (ends, sac_read-Ends)
  handle-Ends (Request.remove path) s other = search (ends, sac_remove-Ends)
  handle-Ends (Request.mkdir path) s other = search (ends, sac_mkdir-Ends)
  handle-Ends (Request.rmdir path) s other = absurd other
  handle-Ends (Request.stat path) s other = search (ends, sac_stat-Ends)
  handle-Ends (Request.readdir path) s other = search (ends, sac_readdir-Ends, lift-Ends)
  handle-Ends (Request.rename old_path new_path) s other = search (ends, sac_rename-Ends)
  handle-Ends (Request.truncate path length) s other = search (ends, sac_truncate-Ends, other)
  handle-Ends Request.unknown s other = tt

  -- The operation of every request ends, for all its arguments and whatever the disk and the bitmap
  -- hold, so the rounds that the model gives to the loops are enough; but for an `rmdir`, and for a
  -- `truncate` to 2 ^ 31 bytes or more.
  pub handle_ends : (r : Request) (s : Fs) → HasEnd r → handle r s ≢ out_of_fuel
  handle_ends r s other = Ends-out_of_fuel (handle r s) (handle-Ends r s other)
