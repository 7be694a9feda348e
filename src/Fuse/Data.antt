-- ===== src/Fuse/Data.antt =====
-- What the callbacks of sac-cli/src/fuse.c that carry data do on the server's disk: `do_write`,
-- `do_readdir` and `do_getattr`.
use linuse_fs.Base.{
  ℕ, ◌+◌, ◌^◌, ◌%◌, ◌<◌, ◌≡◌, refl, sym, ◌∙◌, Option, none, some, List, length, arith, subst, true,
}
use linuse_fs.Memory.{Bytes, string_bytes}
use linuse_fs.Platform.{Platform}
use linuse_fs.Disk.{Fs, ok, fault, Cmd, pure, lift, ◌>>=◌}
use linuse_fs.Disk.Runs.{and_then_assoc}
use linuse_fs.Package.{Package, Function, ◌>>=◌ as bind}
use linuse_fs.Package.Copies.{IsString}
use linuse_fs.Identifier
use linuse_fs.Status.{Status, failure}
use linuse_fs.Request.{Request}
use linuse_fs.Wire.{pattern64, signed64}
use linuse_fs.Protocol.Deserialize.{deserialize}
use linuse_fs.Protocol.Serialize.{
  serialize_path, serialize_write, serialize_readdir, serialize_stat,
}
use linuse_fs.Protocol.Paths.{
  travel-serialize_path, travel-serialize_stat, serialize_path-eq, path_message,
}
use linuse_fs.Protocol.Numbers.{
  write_message, serialize_write-eq, travel-serialize_write, serialize_write_wide,
}
use linuse_fs.Protocol.Sendable.{IsSendable, serialize_path-IsSendable}
use linuse_fs.Server.Response.{
  create_default_package, write_response, readdir_response, sac_readdir_response,
}
use linuse_fs.Server.Execute.{handle}
use linuse_fs.Sacio.Tree.{sac_readdir}
use linuse_fs.Sacio.Data.{sac_write}
use linuse_fs.Client.{null, string, buffer, serialize_function, send_function}
use linuse_fs.Client.Exchange.{server, receive_answer-sent, send_function-unread}
use linuse_fs.Fuse.{correct_path}
use linuse_fs.Fuse.Callbacks.{int32, result_of, dots, enoent, do_write, do_readdir, do_getattr}
use linuse_fs.Fuse.Calls.{result_of-respond, call-handle}

module _ ⦃p : Platform⦄ (local_fs : Function → Cmd Package) where
  -- Listing through the mounted file system what `sac_readdir` cannot list gives -ENOENT, for a
  -- path without a 0 that is shorter than 2 ^ 16 - 3 bytes. The filler gets "." and ".." all the
  -- same.
  pub do_readdir-sac_readdir-none :
      (path : List ℕ) (s s' : Fs)
      → IsString path
      → length path + 3 < 2 ^ 16
      → sac_readdir path s ≡ ok none s'
      → do_readdir (server local_fs) path s ≡ ok (enoent, dots) s'
  unfolding do_readdir serialize_function serialize_readdir handle sac_readdir_response lift
      readdir_response create_default_package signed64 pattern64
  do_readdir-sac_readdir-none path s s' hs small found = rw (
    call-handle local_fs Identifier.readdir (string path) null 0 0 0 (serialize_readdir path)
        (Request.readdir path) s refl
        (λ m h. serialize_path-IsSendable Identifier.readdir path m h (omega arith))
        ((travel-serialize_path path hs small).2),
    found,
    receive_answer-sent (create_default_package failure) s' (omega arith),
  )

  write_message-IsSendable :
      (fd : ℕ) (bytes : List ℕ) (offset : ℕ) (m : Package)
      → length bytes + 10 < 2 ^ 32
      → some (write_message fd bytes offset) ≡ some m
      → IsSendable m
  write_message-IsSendable fd bytes offset m small h =
      let e : write_message fd bytes offset ≡ m = cc in
      subst IsSendable e (record { id = omega arith; small = omega arith })

  -- Writing through the mounted file system where a size_t has 4 bytes has the effect of
  -- `sac_write` on the server's disk, however that ends, with all the bytes and the low 16 bits
  -- of the descriptor, and gives as a C int the number that `sac_write` gives. The size of the
  -- package and the offset are below 2 ^ 32.
  pub do_write-sac_write :
      (bytes : List ℕ) (offset fd : ℕ) (s : Fs)
      → p.pointer_size ≡ 4
      → length bytes + 10 < 2 ^ 32
      → offset < 2 ^ 32
      → do_write (server local_fs) (string_bytes bytes) (length bytes) offset fd s
        ≡ (sac_write (fd % 2 ^ 16) (string_bytes bytes) (length bytes) offset >>= λ n.
              pure (int32 (Status.pos n)))
            s
  unfolding do_write serialize_function handle write_response
  do_write-sac_write bytes offset fd s narrow small ho =
      let n = length bytes in
      let op : Cmd ℕ = sac_write (fd % 2 ^ 16) (string_bytes bytes) n offset in
      rw
        (result_of-respond local_fs Identifier.write (buffer (string_bytes bytes)) null fd n offset
          (serialize_write fd (string_bytes bytes) n offset)
          (Request.write (fd % 2 ^ 16) bytes offset) (op >>= λ k. pure (Status.pos k)) s refl
          (λ m h.
            write_message-IsSendable fd bytes offset m small
              (sym (serialize_write-eq fd bytes offset narrow small ho) ∙ h))
          (travel-serialize_write fd bytes offset narrow small ho)
          (sym (
            and_then_assoc (op s) (λ k. pure (Status.pos k))
              (λ st. pure (create_default_package st)))))
        (and_then_assoc (op s) (λ k. pure (Status.pos k)) (λ st. pure (int32 st)))

  -- Where a size_t has 8 bytes, writing fewer than 2 ^ 32 - 10 bytes through the mounted file
  -- system goes beyond the end of the client's package before anything is sent, once the client is
  -- connected.
  pub do_write_wide :
      (peer : List ℕ → Cmd (Option (List ℕ))) (bytes : Bytes) (size offset fd : ℕ) (s : Fs)
      → p.pointer_size ≡ 8
      → size + 10 < 2 ^ 32
      → do_write (some peer) bytes size offset fd s ≡ fault
  unfolding do_write result_of send_function serialize_function lift
  do_write_wide peer bytes size offset fd s wide small =
      rw (serialize_write_wide fd bytes size offset wide small)

  -- Asking for the attributes of any path that is not hidden and is shorter than 2 ^ 16 - 3 bytes
  -- makes this project's server read beyond the end of the package.
  pub do_getattr-fault :
      (path : List ℕ) (s : Fs)
      → length path + 3 < 2 ^ 16
      → correct_path path ≡ true
      → do_getattr (server local_fs) path s ≡ fault
  unfolding do_getattr serialize_function serialize_stat lift
  do_getattr-fault path s small shown =
      let m = path_message Identifier.stat path in
      let e = serialize_path-eq Identifier.stat path small in
      let made : serialize_function Identifier.stat (string path) null 0 0 0 s ≡ ok m s = rw e in
      let unread : bind (serialize_path Identifier.stat path) deserialize ≡ none =
        travel-serialize_stat path small in
      rw (
        shown,
        send_function-unread local_fs Identifier.stat (string path) null 0 0 0 m s made
            (serialize_path-IsSendable Identifier.stat path m e (omega arith)) (rw e at unread),
      )
