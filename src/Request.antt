-- ===== src/Request.antt =====
-- The calls that travel between client and server: the arguments that `execute` of
-- mtserver/src/server.c reads from a `t_function`, in the cases of its switch.
use linuse_fs.Base.{ℕ, Option, none, some, List, leb, ◌==◌, if◌then◌else◌, length, get_elem?}
use linuse_fs.Platform.{Platform}
use linuse_fs.Package.{Buffer, Function, buffer_int, buffer_string}
use linuse_fs.Package
use linuse_fs.Identifier
use linuse_fs.Wire.{send_bytes}

pub data Request : Type 0 where
  open_file : List ℕ → ℕ → Request
  close : ℕ → Request
  write : ℕ → List ℕ → ℕ → Request
  read : ℕ → ℕ → ℕ → Request
  remove : List ℕ → Request
  mkdir : List ℕ → Request
  rmdir : List ℕ → Request
  stat : List ℕ → Request
  readdir : List ℕ → Request
  rename : List ℕ → List ℕ → Request
  truncate : List ℕ → ℕ → Request
  unknown : Request

infixl 5 ◌>>=◌
abbrev ◌>>=◌ : {A B : Type 0} → Option A → (A → Option B) → Option B
m >>= k = Package.◌>>=◌ m k

-- function->args[i], read as a string, and as an integer of `n` bytes.
unfoldable pub string_arg : Function → ℕ → Option (List ℕ)
unfolding buffer_string
string_arg f i = do b ← get_elem? f.args i; buffer_string b

unfoldable pub int_arg : Function → ℕ → ℕ → Option ℕ
unfolding buffer_int
int_arg f i n = do b ← get_elem? f.args i; buffer_int n b

-- `count` bytes of an argument.
unfoldable pub data_arg : Function → ℕ → ℕ → Option (List ℕ)
unfolding send_bytes
data_arg f i count = do
  b ← get_elem? f.args i
  if leb count b.size then some (send_bytes count b.bytes 0) else none

unfoldable pub path_request : Function → (List ℕ → Request) → Option Request
unfolding string_arg
path_request f request = do path ← string_arg f 0; some (request path)

module _ ⦃p : Platform⦄ where
  unfoldable pub request_of : Function → Option Request
  unfolding string_arg int_arg data_arg path_request
  request_of f =
      let id = f.function_id in
      if id == Identifier.open_file
      then (do path ← string_arg f 0; mode ← int_arg f 1 2; some (Request.open_file path mode))
      else if id == Identifier.close
      then (do fd ← int_arg f 0 2; some (Request.close fd))
      else if id == Identifier.write
      then (do
        fd ← int_arg f 0 2
        count ← int_arg f 2 4
        buffer ← data_arg f 1 count
        offset ← int_arg f 3 4
        some (Request.write fd buffer offset))
      else if id == Identifier.read
      then (do
        fd ← int_arg f 0 2
        count ← int_arg f 1 4
        offset ← int_arg f 2 4
        some (Request.read fd count offset))
      else if id == Identifier.remove
      then path_request f Request.remove
      else if id == Identifier.mkdir
      then path_request f Request.mkdir
      else if id == Identifier.rmdir
      then path_request f Request.rmdir
      else if id == Identifier.stat
      then path_request f Request.stat
      else if id == Identifier.readdir
      then path_request f Request.readdir
      else if id == Identifier.rename
      then (do
        old_path ← string_arg f 0
        new_path ← string_arg f 1
        some (Request.rename old_path new_path))
      else if id == Identifier.truncate
      then (do
        path ← string_arg f 0
        length ← int_arg f 1 p.off_t_size
        some (Request.truncate path length))
      else some Request.unknown
