-- ===== src/Tests/Bitmap.antt =====
-- Examples for what the requests do to the bitmap.
use linuse_fs.Base.{◌≡◌, refl}
use linuse_fs.Disk.{Fs, ok}
use linuse_fs.Status.{Status}
use linuse_fs.Request.{Request}
use linuse_fs.Sacio.Data.{sac_read}
use linuse_fs.Server.Response.{read_response, sac_read_response}
use linuse_fs.Server.Execute.{handle}
use linuse_fs.Server.Keeps.{handle-bitmap}
use linuse_fs.Sample.{unix}
use linuse_fs.Tests.Calls.{small, state_of, read_abc, read_small}

-- The state after the three bytes of the file are read.
abbrev after_read : Fs
after_read = state_of (sac_read ⦃p = unix 4⦄ 1 (λ _. 0xee) 10 0 small)

read_request :
    handle ⦃p = unix 4⦄ (Request.read 1 10 0) small
    ≡ ok (read_response ⦃p = unix 4⦄ (Status.pos 3) 10 read_abc) after_read
unfolding handle sac_read_response
read_request = rw read_small refl

handle-bitmap_example : after_read.bitmap ≡ small.bitmap
handle-bitmap_example =
    handle-bitmap ⦃p = unix 4⦄ (Request.read 1 10 0)
      (read_response ⦃p = unix 4⦄ (Status.pos 3) 10 read_abc) small after_read tt read_request
