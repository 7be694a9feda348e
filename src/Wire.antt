-- ===== src/Wire.antt =====
-- `send_package`, `receive_package` and `send_handshake` of mtserver/src/serialization.c. A socket is
-- the list of the bytes that travel on it.
pub mod Stream
use linuse_fs.Base.{
  ℕ, zero, suc, ◌-◌, ◌%◌, ◌^◌, Option, none, some, List, [], ◌∷◌, ◌++◌, ltb, leb, if◌then◌else◌,
  length, take, drop,
}
use linuse_fs.Memory.{Bytes, object_bytes, load, string_bytes}
use linuse_fs.Package.{Package, ◌>>=◌ as bind}
use linuse_fs.Identifier
use linuse_fs.Status.{Status}

infixl 5 ◌>>=◌
abbrev ◌>>=◌ : {A B : Type 0} → Option A → (A → Option B) → Option B
m >>= k = bind m k

-- The bit pattern of an int64_t, and the number that it stands for.
unfoldable pub pattern64 : Status → ℕ
pattern64 (Status.pos n) = n % 2 ^ 64
pattern64 (Status.negsuc n) = 2 ^ 64 - 1 - n % 2 ^ 64

unfoldable pub signed64 : ℕ → Status
signed64 w = if ltb w (2 ^ 63) then Status.pos w else Status.negsuc (2 ^ 64 - 1 - w)

-- The `n` bytes at `b + i`.
unfoldable pub send_bytes : ℕ → Bytes → ℕ → List ℕ
send_bytes zero b i = []
send_bytes (suc n) b i = b i ∷ send_bytes n b (suc i)

unfoldable pub send_package : Package → List ℕ
send_package message =
    send_bytes 8 (object_bytes (pattern64 message.message_id)) 0
    ++ (send_bytes 4 (object_bytes message.size) 0 ++ send_bytes message.size message.content 0)

unfoldable pub send_handshake : List ℕ
unfolding send_package
send_handshake =
    send_package (record { message_id = Status.pos Identifier.sac; size = 0; content = λ _. 0 })

-- The first `n` bytes of the stream as an array, and the rest; `none` if the stream ends before.
unfoldable pub receive_bytes : ℕ → List ℕ → Option (Bytes × List ℕ)
receive_bytes n stream =
    if leb n (length stream) then some (string_bytes (take n stream), drop n stream) else none

unfoldable pub receive_package : List ℕ → Option (Package × List ℕ)
receive_package stream = do
  (id, stream1) ← receive_bytes 8 stream
  (size, stream2) ← receive_bytes 4 stream1
  (content, stream3) ← receive_bytes (load 4 size 0) stream2
  some (
    record { message_id = signed64 (load 8 id 0); size = load 4 size 0; content = content },
    stream3,
  )
