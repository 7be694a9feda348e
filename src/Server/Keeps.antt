-- ===== src/Server/Keeps.antt =====
-- The bitmap under the requests (mtserver/src/fs_sac.c).
use linuse_fs.Base.{◌≡◌, refl, subst}
use linuse_fs.Platform.{Platform, BitArray}
use linuse_fs.Disk.{Fs, ok}
use linuse_fs.Disk.Keeps.{Keeps, keeps, lift-Keeps}
use linuse_fs.Package.{Package}
use linuse_fs.Request.{Request}
use linuse_fs.Sacio.Keeps.{sac_read-Keeps, sac_stat-Keeps, sac_readdir-Keeps}
use linuse_fs.Server.Response.{
  respond, close_response, sac_read_response, sac_stat_response, sac_readdir_response,
}
use linuse_fs.Server.Execute.{handle}

-- The requests that make, change and remove nothing.
abbrev pub IsLooking : Request → Type 0
IsLooking (Request.open_file path mode) = ⊥
IsLooking (Request.close fd) = Unit
IsLooking (Request.write fd buffer offset) = ⊥
IsLooking (Request.read fd count offset) = Unit
IsLooking (Request.remove path) = ⊥
IsLooking (Request.mkdir path) = ⊥
IsLooking (Request.rmdir path) = ⊥
IsLooking (Request.stat path) = Unit
IsLooking (Request.readdir path) = Unit
IsLooking (Request.rename old_path new_path) = ⊥
IsLooking (Request.truncate path size) = ⊥
IsLooking Request.unknown = Unit

module _ ⦃p : Platform⦄ where
  handle-Keeps :
      (b : BitArray → Type 0) (r : Request) (s : Fs)
      → IsLooking r
      → b s.bitmap
      → Keeps b (handle r s)
  unfolding handle respond close_response sac_read_response sac_stat_response sac_readdir_response
  handle-Keeps b (Request.open_file path mode) s looks h = absurd looks
  handle-Keeps b (Request.close fd) s looks h = h
  handle-Keeps b (Request.write fd buffer offset) s looks h = absurd looks
  handle-Keeps b (Request.read fd count offset) s looks h = search (keeps, sac_read-Keeps)
  handle-Keeps b (Request.remove path) s looks h = absurd looks
  handle-Keeps b (Request.mkdir path) s looks h = absurd looks
  handle-Keeps b (Request.rmdir path) s looks h = absurd looks
  handle-Keeps b (Request.stat path) s looks h = search (keeps, sac_stat-Keeps)
  handle-Keeps b (Request.readdir path) s looks h = search (keeps, sac_readdir-Keeps, lift-Keeps)
  handle-Keeps b (Request.rename old_path new_path) s looks h = absurd looks
  handle-Keeps b (Request.truncate path size) s looks h = absurd looks
  handle-Keeps b Request.unknown s looks h = h

  -- The requests close, read, stat and readdir, and those that are not known, take and free no
  -- block, whatever the disk holds: where the operation returns, the bitmap is the one before.
  pub handle-bitmap :
      (r : Request) (m : Package) (s s' : Fs)
      → IsLooking r
      → handle r s ≡ ok m s'
      → s'.bitmap ≡ s.bitmap
  handle-bitmap r m s s' looks returned =
      let b : BitArray → Type 0 = λ c. c ≡ s.bitmap in
      subst (Keeps b) returned (handle-Keeps b r s looks refl)
