-- ===== src/Protocol/Numbers.antt =====
-- Requests on open files: what the client serializes is what the server reads.
use linuse_fs.Base.{
  ℕ, ◌+◌, ◌%◌, ◌^◌, ◌≤◌, ◌<◌, ◌≡◌, ap, ◌∙◌, none, some, List, arith, length, le→leb,
}
use linuse_fs.Memory.{Bytes, memcpy, object_bytes, load, string_bytes}
use linuse_fs.Platform.{Platform}
use linuse_fs.Package.{Package, u16, put, take_buffer}
use linuse_fs.Package.Copies.{put-some, copied, take_buffer-some, load-copied, send_bytes-eq}
use linuse_fs.Memory.Laws.{memcpy-inside, memcpy-outside, load-memcpy, load-memcpy_ne}
use linuse_fs.Identifier
use linuse_fs.Status.{Status}
use linuse_fs.Request.{Request, int_arg, data_arg, request_of}
use linuse_fs.Wire.{send_bytes}
use linuse_fs.Protocol.Serialize.{serialize_close, serialize_write, serialize_read}
use linuse_fs.Protocol.Deserialize.{
  deserialize_close, deserialize_write, deserialize_read, deserialize_id, deserialize,
}
use linuse_fs.Protocol.Strings.{travel}

module _ ⦃p : Platform⦄ where
  -- A `close` request reaches the server with the low 16 bits of its file descriptor, and a `read`
  -- request with those, and the low 32 bits of its count and its offset.
  pub travel-serialize_read :
      (fd count offset : ℕ)
      → (travel (serialize_close fd) ≡ some (Request.close (fd % 2 ^ 16)))
        × (travel (serialize_read fd count offset)
            ≡ some (Request.read (fd % 2 ^ 16) (count % 2 ^ 32) (offset % 2 ^ 32)))
  unfolding serialize_close serialize_read deserialize deserialize_id deserialize_close
      deserialize_read request_of int_arg take_buffer put load memcpy object_bytes
  travel-serialize_read fd count offset = (ground arith, ground arith)

  abbrev pub write_message : ℕ → List ℕ → ℕ → Package
  write_message fd buffer offset =
      let n = length buffer in
      let b2 = memcpy (memcpy p.garbage 0 (object_bytes (u16 fd)) 0 2) 2 (object_bytes n) 0 4 in
      record {
        message_id = Status.pos Identifier.write;
        size = n + 10;
        content = memcpy (memcpy b2 6 (string_bytes buffer) 0 n) (6 + n) (object_bytes offset) 0 4;
      }

  pub serialize_write-eq :
      (fd : ℕ) (buffer : List ℕ) (offset : ℕ)
      → p.pointer_size ≡ 4
      → length buffer + 10 < 2 ^ 32
      → offset < 2 ^ 32
      → serialize_write fd (string_bytes buffer) (length buffer) offset
        ≡ some (write_message fd buffer offset)
  unfolding serialize_write
  serialize_write-eq fd buffer offset narrow small ho =
      let n = length buffer in
      let e1 : n % 2 ^ 32 ≡ n = omega arith in
      let e2 : (6 + n + 4) % 2 ^ 32 ≡ n + 10 = omega arith in
      let e3 : offset % 2 ^ 32 ≡ offset = omega arith in
      rw (
        narrow,
        e1,
        e2,
        e3,
        put-some (n + 10) p.garbage 0 (object_bytes (u16 fd)) 2 (omega arith),
        put-some (n + 10) _ 2 (object_bytes n) 4 (omega arith),
        put-some (n + 10) _ 6 (string_bytes buffer) n (omega arith),
        put-some (n + 10) _ (6 + n) (object_bytes offset) 4 (omega arith),
      )

  -- The fields of the package of a `write`.
  write_fields :
      (fd : ℕ) (buffer : List ℕ) (offset : ℕ)
      → length buffer < 2 ^ 32
      → offset < 2 ^ 32
      → let c = (write_message fd buffer offset).content in
        (load 2 c 0 ≡ u16 fd)
        × (load 4 c 2 ≡ length buffer)
        × (load 4 c (6 + length buffer) ≡ offset)
  write_fields fd buffer offset hn ho =
      let n = length buffer in
      let far : (k : ℕ)
          → k ≤ 6
          → (dst : Bytes) → (w at : ℕ) → at + k ≤ 6
          → load k (memcpy (memcpy dst 6 (string_bytes buffer) 0 n) (6 + n) (object_bytes w) 0 4) at
            ≡ load k dst at =
        λ k hk dst w at h.
          load-memcpy_ne k _ (6 + n) (object_bytes w) 0 4 at (omega arith)
          ∙ load-memcpy_ne k dst 6 (string_bytes buffer) 0 n at (omega arith) in
      (
        far 2 (omega arith) _ offset 0 (omega arith)
            ∙ load-memcpy_ne 2 _ 2 (object_bytes n) 0 4 0 (omega arith)
            ∙ load-memcpy 2 p.garbage 0 (u16 fd) (omega arith),
        far 4 (omega arith) _ offset 2 (omega arith) ∙ load-memcpy 4 _ 2 n (omega arith),
        load-memcpy 4 _ (6 + n) offset (omega arith),
      )

  write_data :
      (fd : ℕ) (buffer : List ℕ) (offset : ℕ)
      → send_bytes
          (length buffer)
          (copied (write_message fd buffer offset) p.garbage 6 (length buffer)).bytes
          0
        ≡ buffer
  unfolding string_bytes
  write_data fd buffer offset =
      let n = length buffer in
      send_bytes-eq buffer _ 0 λ i hi.
        memcpy-inside p.garbage 0 _ 6 n i hi
        ∙ memcpy-outside _ (6 + n) (object_bytes offset) 0 4 (6 + i) (omega arith)
        ∙ memcpy-inside _ 6 (string_bytes buffer) 0 n i hi
        ∙ ap (string_bytes buffer) (omega arith)

  -- Where a size_t has 4 bytes, a `write` request reaches the server with the low 16 bits of
  -- its file descriptor, all the bytes to write, and its offset, as long as the package's size
  -- and the offset are below 2 ^ 32.
  pub travel-serialize_write :
      (fd : ℕ) (buffer : List ℕ) (offset : ℕ)
      → p.pointer_size ≡ 4
      → length buffer + 10 < 2 ^ 32
      → offset < 2 ^ 32
      → travel (serialize_write fd (string_bytes buffer) (length buffer) offset)
        ≡ some (Request.write (fd % 2 ^ 16) buffer offset)
  unfolding deserialize deserialize_id deserialize_write request_of int_arg data_arg
  travel-serialize_write fd buffer offset narrow small ho =
      let m = write_message fd buffer offset in
      let n = length buffer in
      let fields = write_fields fd buffer offset (omega arith) ho in
      let count : load 4 (copied m p.garbage 2 4).bytes 0 ≡ n =
        load-copied m p.garbage 2 4 ∙ fields.1 in
      rw (
        serialize_write-eq fd buffer offset narrow small ho,
        take_buffer-some m p.garbage 0 2 (omega arith),
        take_buffer-some m p.garbage 2 4 (omega arith),
        count,
        take_buffer-some m p.garbage 6 n (omega arith),
        take_buffer-some m p.garbage (6 + n) 4 (omega arith),
        load-copied m p.garbage 0 2 ∙ fields.0,
        count,
        le→leb n n (omega arith),
        write_data fd buffer offset,
        load-copied m p.garbage (6 + n) 4 ∙ fields.2,
      )

  -- Where a size_t has 8 bytes, every `write` request whose package would have a size below 2 ^
  -- 32 is written beyond the end of its package.
  pub serialize_write_wide :
      (fd : ℕ) (buffer : Bytes) (count offset : ℕ)
      → p.pointer_size ≡ 8
      → count + 10 < 2 ^ 32
      → serialize_write fd buffer count offset ≡ none
  unfolding serialize_write put
  serialize_write_wide fd buffer count offset wide small = rw wide (ground arith)
