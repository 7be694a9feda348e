-- ===== src/Package.antt =====
-- mtserver/src/serialization.h: packages, the functions that they call, and copies whose bounds are
-- checked. `none` is a read or a write outside a heap block.
pub mod Copies
use linuse_fs.Base.{ℕ, ◌+◌, ◌%◌, ◌^◌, Option, none, some, List, leb, if◌then◌else◌}
use linuse_fs.Memory.{Bytes, memcpy, load, read_string}
use linuse_fs.Status.{Status}

-- `t_package`.
pub record Package : Type 0 where
  pub message_id : Status
  pub size : ℕ
  pub content : Bytes

-- A heap block with its size.
pub record Buffer : Type 0 where
  pub size : ℕ
  pub bytes : Bytes

-- `t_function`; `count` is the length of the list.
pub record Function : Type 0 where
  pub function_id : ℕ
  pub args : List Buffer

infixl 5 ◌>>=◌
abbrev pub ◌>>=◌ : {A B : Type 0} → Option A → (A → Option B) → Option B
none >>= k = none
some a >>= k = k a

-- u_int16_t numbers.
abbrev pub u16 : ℕ → ℕ
u16 n = n % 2 ^ 16

-- memcpy of `n` bytes to `dst + at`, where `dst` has `size` bytes.
unfoldable pub put : ℕ → Bytes → ℕ → Bytes → ℕ → Option Bytes
put size dst at src n = if leb (at + n) size then some (memcpy dst at src 0 n) else none

-- malloc(n) and the memcpy of `n` bytes from `package->data + from` to it.
unfoldable pub take_buffer : Package → Bytes → ℕ → ℕ → Option Buffer
take_buffer message fresh from n =
    if leb (from + n) message.size
    then some (record { size = n; bytes = memcpy fresh 0 message.content from n })
    else none

-- The integer of `n` bytes at the front of a buffer.
unfoldable pub buffer_int : ℕ → Buffer → Option ℕ
buffer_int n b = if leb n b.size then some (load n b.bytes 0) else none

-- The string at the front of a buffer.
unfoldable pub buffer_string : Buffer → Option (List ℕ)
buffer_string b = read_string b.size b.bytes 0
