-- ===== src/Fuse/Answers.antt =====
-- The answers to `stat`, `readdir` and `read`, from the server's operation to the client.
use linuse_fs.Base.{ℕ, ◌-◌, ◌%◌, ◌^◌, ◌<◌, ◌≡◌, arith, if◌then◌else◌, le→ltb}
use linuse_fs.Memory.{Bytes, memcpy, object_bytes, load}
use linuse_fs.Platform.{Platform}
use linuse_fs.Status.{success, failure}
use linuse_fs.Sacio.File.{Stat}
use linuse_fs.Server.Response.{stat_to_buffer, read_response}
use linuse_fs.Fuse.{fill_stat_from_buffer}

-- What the client decodes from the answer to a `stat` is what the server encoded: the type, the
-- number of links that goes with it, the low 16 bits of the node's number, the size and the
-- dates. The size is below 2 ^ 32 and the dates are below 2 ^ 64.
pub fill_stat_from_buffer-stat_to_buffer :
    (st : Stat) (b : Bytes)
    → st.size < 2 ^ 32
    → st.mtime < 2 ^ 64
    → st.ctime < 2 ^ 64
    → fill_stat_from_buffer (stat_to_buffer st b) ≡ record {
      is_dir = st.is_dir;
      nlink = if st.is_dir then 2 else 1;
      ino = st.ino % 2 ^ 16;
      size = st.size;
      mtime = st.mtime;
      ctime = st.ctime;
      atime = st.mtime;
    }
unfolding fill_stat_from_buffer stat_to_buffer load memcpy object_bytes
fill_stat_from_buffer-stat_to_buffer st b hs hm hc = ground arith

module _ ⦃p : Platform⦄ where
  -- A read that fails (-1) is answered with the status 0 and with as many bytes as were asked
  -- for, which nothing has written, if the count is below 2 ^ 32 and fits a size_t.
  pub read_response-failure :
      (count : ℕ) (content : Bytes)
      → count < 2 ^ 32
      → count < 256 ^ p.pointer_size
      → read_response failure count content
        ≡ record { message_id = success; size = count; content = content }
  unfolding read_response
  read_response-failure count content h k =
      let e : count % 2 ^ 32 ≡ count = omega arith in
      rw (le→ltb (256 ^ p.pointer_size - 1 - 0) count (omega arith), e)
