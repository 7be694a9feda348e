-- ===== src/Client.antt =====
-- sac-cli/src/client.c: a call of the server. `peer` is the server at the other end of the
-- connection, which gets the bytes that the client sends and answers with bytes of its own, or closes
-- the connection without an answer (`none`); with no peer the connection cannot be made.
pub mod Exchange
use linuse_fs.Base.{ℕ, Option, none, some, List, ◌++◌, ◌==◌, if◌then◌else◌}
use linuse_fs.Memory.{Bytes}
use linuse_fs.Platform.{Platform}
use linuse_fs.Disk.{Cmd, pure, exit, crash, lift, ◌>>=◌}
use linuse_fs.Package.{Package}
use linuse_fs.Identifier
use linuse_fs.Wire.{send_package, send_handshake, receive_package}
use linuse_fs.Protocol.Serialize.{
  serialize_open, serialize_close, serialize_write, serialize_read, serialize_remove,
  serialize_mkdir, serialize_rmdir, serialize_stat, serialize_readdir, serialize_rename,
  serialize_truncate,
}

abbrev pub Peer : Type 0
Peer = Option (List ℕ → Cmd (Option (List ℕ)))

-- What a `void*` argument points to.
pub data Pointer : Type 0 where
  null : Pointer
  string : List ℕ → Pointer
  buffer : Bytes → Pointer

-- A pointer read as a string, and as the bytes to write.
abbrev pub string_of : Pointer → Cmd (List ℕ)
string_of (string s) = pure s
string_of null = crash
string_of (buffer b) = crash

abbrev pub bytes_of : Pointer → Cmd Bytes
bytes_of (buffer b) = pure b
bytes_of null = crash
bytes_of (string s) = crash

-- The answer, of which nothing is there if the server closed the connection.
unfoldable pub receive_answer : Option (List ℕ) → Cmd Package
receive_answer none = crash
receive_answer (some stream) = do (message, _) ← lift (receive_package stream); pure message

module _ ⦃p : Platform⦄ where
  -- The switch of `send_function`. The integer arguments are those that the callbacks pass, which are
  -- not negative.
  unfoldable pub serialize_function : ℕ → Pointer → Pointer → ℕ → ℕ → ℕ → Cmd Package
  serialize_function function_id arg_data1 arg_data2 arg_int1 arg_int2 arg_int3 =
      if function_id == Identifier.open_file
      then (do path ← string_of arg_data1; lift (serialize_open path arg_int1))
      else if function_id == Identifier.close
      then lift (serialize_close arg_int1)
      else if function_id == Identifier.write
      then (do bytes ← bytes_of arg_data1; lift (serialize_write arg_int1 bytes arg_int2 arg_int3))
      else if function_id == Identifier.read
      then lift (serialize_read arg_int1 arg_int2 arg_int3)
      else if function_id == Identifier.remove
      then (do path ← string_of arg_data1; lift (serialize_remove path))
      else if function_id == Identifier.mkdir
      then (do path ← string_of arg_data1; lift (serialize_mkdir path arg_int1))
      else if function_id == Identifier.rmdir
      then (do path ← string_of arg_data1; lift (serialize_rmdir path))
      else if function_id == Identifier.stat
      then (do path ← string_of arg_data1; lift (serialize_stat path))
      else if function_id == Identifier.readdir
      then (do path ← string_of arg_data1; lift (serialize_readdir path))
      else if function_id == Identifier.rename
      then (do
        old_path ← string_of arg_data1
        new_path ← string_of arg_data2
        lift (serialize_rename old_path new_path))
      else if function_id == Identifier.truncate
      then (do path ← string_of arg_data1; lift (serialize_truncate path arg_int1))
      else exit

  unfoldable pub send_function : Peer → ℕ → Pointer → Pointer → ℕ → ℕ → ℕ → Cmd Package
  send_function none function_id arg_data1 arg_data2 arg_int1 arg_int2 arg_int3 = exit
  send_function (some peer) function_id arg_data1 arg_data2 arg_int1 arg_int2 arg_int3 = do
    message ← serialize_function function_id arg_data1 arg_data2 arg_int1 arg_int2 arg_int3
    answer ← peer (send_handshake ++ send_package message)
    receive_answer answer
