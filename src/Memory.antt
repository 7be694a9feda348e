-- ===== src/Memory.antt =====
-- The C memory that the sources work on: byte arrays, `memcpy`, `strcpy`, the little-endian
-- representation of unsigned integers, and NUL-terminated strings. A byte array is a function from
-- an index to a byte; who may read or write which index is checked by the callers.
pub mod Laws
use linuse_fs.Base.{
  ℕ, zero, suc, ◌+◌, ◌-◌, ◌*◌, ◌/◌, ◌%◌, ◌&&◌, Option, none, some, List, [], ◌∷◌, ltb, leb, ◌==◌,
  if◌then◌else◌, length, get_or,
}
use mathlib.Core.Option

abbrev pub Bytes : Type 0
Bytes = ℕ → ℕ

-- memcpy(dst + at, src + from, n)
unfoldable pub memcpy : Bytes → ℕ → Bytes → ℕ → ℕ → Bytes
memcpy dst at src from n i = if leb at i && ltb i (at + n) then src (from + (i - at)) else dst i

-- The bytes of an unsigned integer object, lowest first (x86).
unfoldable pub object_bytes : ℕ → Bytes
object_bytes w zero = w % 256
object_bytes w (suc i) = object_bytes (w / 256) i

-- The bytes of an array of u_int32_t.
unfoldable pub array_bytes : (ℕ → ℕ) → Bytes
array_bytes a i = object_bytes (a (i / 4)) (i % 4)

unfoldable pub load_from : ℕ → Bytes → ℕ → ℕ → ℕ
load_from zero b p k = 0
load_from (suc n) b p k = b (p + k) + 256 * load_from n b p (suc k)

-- The unsigned integer of `n` bytes that stands at `b + p`.
unfoldable pub load : ℕ → Bytes → ℕ → ℕ
unfolding load_from
load n b p = load_from n b p 0

-- The characters of a string; from the index of the terminator on they read 0.
unfoldable pub string_bytes : List ℕ → Bytes
string_bytes s i = get_or s i 0

-- strcpy(dst, s): the characters and the terminator.
unfoldable pub strcpy : Bytes → List ℕ → Bytes
unfolding memcpy string_bytes
strcpy dst s = memcpy dst 0 (string_bytes s) 0 (length s + 1)

-- The string that starts at `b + p`, if its terminator stands in the `n` bytes from there.
unfoldable pub read_string : ℕ → Bytes → ℕ → Option (List ℕ)
read_string zero b p = none
read_string (suc n) b p =
    let rest = Option.map (λ s. b p ∷ s) (read_string n b (p + 1)) in
    if b p == 0 then some [] else rest
