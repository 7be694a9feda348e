-- ===== src/Client/Exchange.antt =====
-- A call that travels: from the client's package over the socket to the server's operation, and
-- back.
use linuse_fs.Base.{ℕ, ◌^◌, ◌<◌, ◌≡◌, refl, sym, ap, ◌∙◌, false, none, some, [], ◌++◌, arith}
use linuse_fs.Memory.{string_bytes}
use linuse_fs.Platform.{Platform}
use linuse_fs.Disk.{Fs, ok, fault, Cmd, pure, lift, ◌>>=◌}
use linuse_fs.Disk.Runs.{and_then_assoc}
use linuse_fs.Package.{Package, Function, ◌>>=◌ as bind}
use linuse_fs.Package.Copies.{bind-eq_some}
use linuse_fs.Protocol.Sendable.{IsSendable}
use linuse_fs.Status.{Status}
use linuse_fs.Request.{Request, request_of}
use linuse_fs.Wire.{pattern64, signed64, send_bytes, send_package, send_handshake, receive_package}
use linuse_fs.Wire.Stream.{receive_package-sent, IsInt64, signed64-pattern64, send_bytes-index}
use linuse_fs.Protocol.Deserialize.{deserialize}
use linuse_fs.Protocol.Trim.{trim, trim-ext, deserialize-trim}
use linuse_fs.Server.Execute.{handle, execute_sac, execute, attend_connection}
use linuse_fs.Client.{Peer, Pointer, serialize_function, receive_answer, send_function}
use mathlib.Core.List.{append-nil}

-- The package that is received when `m` was sent.
abbrev pub received : Package → Package
received m = record {
  message_id = signed64 (pattern64 m.message_id);
  size = m.size;
  content = string_bytes (send_bytes m.size m.content 0);
}

receive_package-alone :
    (m : Package) → m.size < 2 ^ 32 → receive_package (send_package m) ≡ some (received m, [])
receive_package-alone m small =
    ap receive_package (sym (append-nil (send_package m))) ∙ receive_package-sent m [] small

pub receive_answer-sent :
    (m : Package) (s : Fs)
    → m.size < 2 ^ 32
    → receive_answer (some (send_package m)) s ≡ ok (received m) s
unfolding receive_answer lift
receive_answer-sent m s small = rw (receive_package-alone m small)

-- What is received has the id, the size and the data of what was sent.
pub trim-received : (m : Package) → IsInt64 m.message_id → trim (received m) ≡ trim m
trim-received m id =
    trim-ext (received m) m (signed64-pattern64 m.message_id id) refl
      λ i hi. send_bytes-index m.size m.content 0 i hi ∙ ap m.content (omega arith)

module _ ⦃p : Platform⦄ (local_fs : Function → Cmd Package) where
  -- This project's server, whose file system is the one of `sac-fs`.
  abbrev pub server : Peer
  server = some (attend_connection false local_fs)

  attend_connection-handle :
      (m : Package) (f : Function) (r : Request) (s : Fs)
      → IsSendable m
      → deserialize m ≡ some f
      → request_of f ≡ some r
      → attend_connection false local_fs (send_handshake ++ send_package m) s
        ≡ (handle r >>= λ response. pure (some (send_package response))) s
  unfolding attend_connection send_handshake lift execute execute_sac signed64 pattern64
  attend_connection-handle m f r s sendable deserialized request =
      let hand : Package = record { message_id = Status.pos 0; size = 0; content = λ _. 0 } in
      let read : deserialize (received m) ≡ some f =
        sym (deserialize-trim (received m))
        ∙ ap deserialize (trim-received m sendable.id)
        ∙ deserialize-trim m
        ∙ deserialized in
      rw (
        receive_package-sent hand (send_package m) (omega arith),
        receive_package-alone m sendable.small,
        read,
        request,
      )

  -- A call whose package the server reads as `r` is answered with what the operation of `r` gives.
  pub send_function-handle :
      (function_id : ℕ) (d1 d2 : Pointer) (i1 i2 i3 : ℕ) (m : Package) (r : Request) (s : Fs)
      → serialize_function function_id d1 d2 i1 i2 i3 s ≡ ok m s
      → IsSendable m
      → bind (deserialize m) request_of ≡ some r
      → send_function server function_id d1 d2 i1 i2 i3 s
        ≡ (handle r >>= λ response. receive_answer (some (send_package response))) s
  unfolding send_function
  send_function-handle function_id d1 d2 i1 i2 i3 m r s made sendable request =
      let (f, deserialized, called) = bind-eq_some (deserialize m) request_of request in
      rw (made, attend_connection-handle m f r s sendable deserialized called)
        (and_then_assoc (handle r s) (λ response. pure (some (send_package response)))
          (λ answer. receive_answer answer))

  attend_connection-unread :
      (m : Package) (s : Fs)
      → IsSendable m
      → deserialize m ≡ none
      → attend_connection false local_fs (send_handshake ++ send_package m) s ≡ fault
  unfolding attend_connection send_handshake lift signed64 pattern64
  attend_connection-unread m s sendable unread =
      let hand : Package = record { message_id = Status.pos 0; size = 0; content = λ _. 0 } in
      let read : deserialize (received m) ≡ none =
        sym (deserialize-trim (received m))
        ∙ ap deserialize (trim-received m sendable.id)
        ∙ deserialize-trim m
        ∙ unread in
      rw (
        receive_package-sent hand (send_package m) (omega arith),
        receive_package-alone m sendable.small,
        read,
      )

  -- A call whose package the server reads beyond its end.
  pub send_function-unread :
      (function_id : ℕ) (d1 d2 : Pointer) (i1 i2 i3 : ℕ) (m : Package) (s : Fs)
      → serialize_function function_id d1 d2 i1 i2 i3 s ≡ ok m s
      → IsSendable m
      → deserialize m ≡ none
      → send_function server function_id d1 d2 i1 i2 i3 s ≡ fault
  unfolding send_function
  send_function-unread function_id d1 d2 i1 i2 i3 m s made sendable unread =
      rw (made, attend_connection-unread m s sendable unread)
