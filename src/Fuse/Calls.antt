-- ===== src/Fuse/Calls.antt =====
-- A callback of sac-cli/src/fuse.c through client.c, the socket, mtserver/src/server.c and fs_sac.c
-- down to the operation of sac-fs/src/sacio.c, and the way back.
use linuse_fs.Base.{ℕ, ◌^◌, ◌<◌, ◌≡◌, refl, Option, none, some, arith}
use linuse_fs.Platform.{Platform}
use linuse_fs.Disk.{Fs, ok, Cmd, pure, lift, and_then, ◌>>=◌}
use linuse_fs.Disk.Runs.{and_then_assoc, and_then_ext}
use linuse_fs.Package.{Package, Function}
use linuse_fs.Status.{Status}
use linuse_fs.Request.{Request}
use linuse_fs.Wire.{pattern64, signed64, send_package}
use linuse_fs.Protocol.Sendable.{IsSendable}
use linuse_fs.Protocol.Strings.{travel}
use linuse_fs.Server.Response.{create_default_package, respond}
use linuse_fs.Server.Execute.{handle}
use linuse_fs.Client.{Pointer, serialize_function, receive_answer, send_function}
use linuse_fs.Client.Exchange.{server, receive_answer-sent, send_function-handle}
use linuse_fs.Fuse.Callbacks.{int32, result_of}

pattern64-signed64 : (w : ℕ) → w < 2 ^ 64 → pattern64 (signed64 w) ≡ w
unfolding pattern64 signed64
pattern64-signed64 w h = ground arith

pattern64_lt : (st : Status) → pattern64 st < 2 ^ 64
unfolding pattern64
pattern64_lt (Status.pos n) = omega arith
pattern64_lt (Status.negsuc n) = omega arith

-- The `int` of a status is the same before and after the travel.
pub int32-sent : (st : Status) → int32 (signed64 (pattern64 st)) ≡ int32 st
unfolding int32
int32-sent st = rw (pattern64-signed64 (pattern64 st) (pattern64_lt st))

module _ ⦃p : Platform⦄ (local_fs : Function → Cmd Package) where
  -- A call whose package can be sent and is read as `r`.
  pub call-handle :
      (function_id : ℕ) (d1 d2 : Pointer) (i1 i2 i3 : ℕ) (o : Option Package) (r : Request) (s : Fs)
      → serialize_function function_id d1 d2 i1 i2 i3 s ≡ lift o s
      → ((m : Package) → o ≡ some m → IsSendable m)
      → travel o ≡ some r
      → send_function (server local_fs) function_id d1 d2 i1 i2 i3 s
        ≡ (handle r >>= λ response. receive_answer (some (send_package response))) s
  unfolding lift
  call-handle function_id d1 d2 i1 i2 i3 none r s made sendable read = cc
  call-handle function_id d1 d2 i1 i2 i3 (some m) r s made sendable read =
      send_function-handle local_fs function_id d1 d2 i1 i2 i3 m r s made (sendable m refl) read

  result-answer :
      (st : Status) (s : Fs)
      → and_then
          (receive_answer (some (send_package (create_default_package st))) s)
          (λ response. pure (int32 response.message_id))
        ≡ ok (int32 st) s
  unfolding create_default_package
  result-answer st s =
      rw (receive_answer-sent (create_default_package st) s (omega arith), int32-sent st)

  -- The result of a call whose operation answers with a status.
  pub result_of-respond :
      (function_id : ℕ) (d1 d2 : Pointer) (i1 i2 i3 : ℕ) (o : Option Package) (r : Request)
      (op : Cmd Status) (s : Fs)
      → serialize_function function_id d1 d2 i1 i2 i3 s ≡ lift o s
      → ((m : Package) → o ≡ some m → IsSendable m)
      → travel o ≡ some r
      → handle r s ≡ respond op s
      → result_of (send_function (server local_fs) function_id d1 d2 i1 i2 i3) s
        ≡ (op >>= λ st. pure (int32 st)) s
  unfolding result_of respond
  result_of-respond function_id d1 d2 i1 i2 i3 o r op s made sendable read handled =
      let answer : Package → Cmd Package =
        λ response. receive_answer (some (send_package response)) in
      let last : Package → Cmd Status = λ response. pure (int32 response.message_id) in
      rw
        (
          call-handle function_id d1 d2 i1 i2 i3 o r s made sendable read,
          handled,
          and_then_assoc (op s) (λ st. pure (create_default_package st)) answer,
          and_then_assoc (op s) (λ st s'. answer (create_default_package st) s') last,
        )
        (and_then_ext (op s) _ _ result-answer)
