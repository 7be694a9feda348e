-- ===== src/Fuse/Reading.antt =====
-- What `do_read` of sac-cli/src/fuse.c gives of a read on the server's disk.
use linuse_fs.Base.{
  ℕ, ◌+◌, ◌-◌, ◌^◌, ◌%◌, ◌<◌, ◌≤◌, ◌≡◌, refl, List, arith, true, fun_ext, ltb, if◌then◌else◌,
  le→ltb, Bool-cases, inl, inr,
}
use linuse_fs.Memory.{Bytes, memcpy}
use linuse_fs.Platform.{Platform}
use linuse_fs.Disk.{Fs, ok, Cmd}
use linuse_fs.Package.{Package, Function}
use linuse_fs.Identifier
use linuse_fs.Status.{Status, success, failure}
use linuse_fs.Request.{Request}
use linuse_fs.Wire.{pattern64, signed64}
use linuse_fs.Wire.Stream.{send_bytes-index}
use linuse_fs.Protocol.Serialize.{serialize_read}
use linuse_fs.Protocol.Numbers.{travel-serialize_read}
use linuse_fs.Protocol.Sendable.{serialize_read-IsSendable}
use linuse_fs.Server.Response.{read_response, size_of, sac_read_response}
use linuse_fs.Server.Execute.{handle}
use linuse_fs.Sacio.Data.{sac_read}
use linuse_fs.Client.{null, serialize_function}
use linuse_fs.Client.Exchange.{server, received, receive_answer-sent}
use linuse_fs.Fuse.{correct_path}
use linuse_fs.Fuse.Callbacks.{signed32, do_read}
use linuse_fs.Fuse.Calls.{call-handle}
use linuse_fs.Fuse.Answers.{read_response-failure}

-- A copy out of the data of a package is the same on both sides of the socket.
memcpy-received :
    (m : Package) (target : Bytes)
    → memcpy target 0 (received m).content 0 m.size ≡ memcpy target 0 m.content 0 m.size
unfolding memcpy
memcpy-received m target = fun_ext λ i. elim (Bool-cases (ltb i (0 + m.size))) [
  | inl e ↦
      let inside : i < m.size = ground arith in
      let z : 0 + (0 + (i - 0)) ≡ 0 + (i - 0) = omega arith in
      rw (e, send_bytes-index m.size m.content 0 (0 + (i - 0)) (omega arith), z)
  | inr e ↦ rw e (ground arith)
]

module _ ⦃p : Platform⦄ (local_fs : Function → Cmd Package) where
  do_read-read_response :
      (path : List ℕ) (target : Bytes) (size offset fd : ℕ) (st : Status) (content : Bytes)
      (m : Package) (s s' : Fs)
      → correct_path path ≡ true
      → size < 2 ^ 32
      → sac_read (fd % 2 ^ 16) p.garbage size (offset % 2 ^ 32) s ≡ ok (st, content) s'
      → read_response st size content ≡ m
      → m.message_id ≡ success
      → m.size ≤ size
      → do_read (server local_fs) path target size offset fd s
        ≡ ok (signed32 m.size, memcpy target 0 m.content 0 m.size) s'
  unfolding do_read serialize_function handle sac_read_response signed64 pattern64
  do_read-read_response path target size offset fd st content m s s' shown narrow done answered fine
        fits =
      let e : size % 2 ^ 32 ≡ size = omega arith in
      let known = rw e at (travel-serialize_read fd size offset).1 in
      rw (
        shown,
        call-handle local_fs Identifier.read null null fd size offset
            (serialize_read fd size offset) (Request.read (fd % 2 ^ 16) size (offset % 2 ^ 32)) s
            refl (serialize_read-IsSendable fd size offset) known,
        done,
        answered,
        receive_answer-sent m s' (omega arith),
        fine,
        le→ltb size m.size fits,
        memcpy-received m target,
      )

  -- Reading a file that is not hidden through the mounted file system gives the bytes that
  -- `sac_read` on the server's disk finds, at the front of the caller's buffer, and their number
  -- as a C int, if there are no more than were asked for, which are fewer than 2 ^ 32 and fit a
  -- size_t. `sac_read` gets the low 16 bits of the descriptor and the low 32 bits of the offset.
  pub do_read-sac_read :
      (path : List ℕ) (target : Bytes) (size offset fd n : ℕ) (content : Bytes) (s s' : Fs)
      → correct_path path ≡ true
      → size < 2 ^ 32
      → sac_read (fd % 2 ^ 16) p.garbage size (offset % 2 ^ 32) s ≡ ok (Status.pos n, content) s'
      → n ≤ size
      → do_read (server local_fs) path target size offset fd s
        ≡ ok (signed32 n, memcpy target 0 content 0 n) s'
  unfolding read_response size_of
  do_read-sac_read path target size offset fd n content s s' shown narrow done fits =
      let answered : read_response (Status.pos n) size content
          ≡ record { message_id = success; size = n; content = content } =
        let e : (if ltb n size then n else size) % 2 ^ 32 ≡ n = ground arith in rw e in
      do_read-read_response path target size offset fd (Status.pos n) content _ s s' shown narrow
        done answered refl fits

  -- A read that fails on the server's disk, of a file that is not hidden, is a read of all the
  -- bytes that were asked for, if these are fewer than 2 ^ 32 and fit a size_t: the client gets
  -- what was in the server's heap.
  pub do_read-failure :
      (path : List ℕ) (target : Bytes) (size offset fd : ℕ) (s s' : Fs)
      → correct_path path ≡ true
      → size < 2 ^ 32
      → size < 256 ^ p.pointer_size
      → sac_read (fd % 2 ^ 16) p.garbage size (offset % 2 ^ 32) s ≡ ok (failure, p.garbage) s'
      → do_read (server local_fs) path target size offset fd s
        ≡ ok (signed32 size, memcpy target 0 p.garbage 0 size) s'
  do_read-failure path target size offset fd s s' shown narrow fits failed =
      do_read-read_response path target size offset fd failure p.garbage _ s s' shown narrow failed
        (read_response-failure size p.garbage narrow fits) refl (omega arith)
