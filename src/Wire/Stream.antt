-- ===== src/Wire/Stream.antt =====
-- A package that is sent is the package that is received.
use linuse_fs.Base.{
  ℕ, zero, suc, ◌+◌, ◌-◌, ◌%◌, ◌^◌, ◌<◌, ◌≡◌, refl, ap, ◌∙◌, some, List, ◌++◌, subst, arith, length,
  take, drop, lt→ltb, le→ltb, le→leb, length-append, take-length_append, drop-length_append,
}
use linuse_fs.Memory.{Bytes, object_bytes, load, string_bytes}
use linuse_fs.Package.{Package}
use linuse_fs.Memory.Laws.{load-object}
use linuse_fs.Status.{Status}
use linuse_fs.Wire.{pattern64, signed64, send_bytes, send_package, receive_bytes, receive_package}
use mathlib.Core.List.{append_assoc}

pub length-send_bytes : (n : ℕ) (b : Bytes) (i : ℕ) → length (send_bytes n b i) ≡ n
unfolding send_bytes
length-send_bytes zero b i = refl
length-send_bytes (suc n) b i = ap suc (length-send_bytes n b (suc i))

-- The bytes of a sent array.
pub send_bytes-index :
    (n : ℕ) (b : Bytes) (k i : ℕ) → i < n → string_bytes (send_bytes n b k) i ≡ b (k + i)
unfolding send_bytes string_bytes
send_bytes-index zero b k i h = absurd (omega arith)
send_bytes-index (suc n) b k zero h = ap b (omega arith)
send_bytes-index (suc n) b k (suc i) h =
    send_bytes-index n b (suc k) i (omega arith) ∙ ap b (omega arith)

receive_bytes-send :
    (n : ℕ) (b : Bytes) (rest : List ℕ)
    → receive_bytes n (send_bytes n b 0 ++ rest) ≡ some (string_bytes (send_bytes n b 0), rest)
unfolding receive_bytes
receive_bytes-send n b rest =
    let xs = send_bytes n b 0 in
    let len : length xs ≡ n = length-send_bytes n b 0 in
    let front : take n (xs ++ rest) ≡ xs =
      subst (λ k. take k (xs ++ rest) ≡ xs) len (take-length_append xs rest) in
    let back : drop n (xs ++ rest) ≡ rest =
      subst (λ k. drop k (xs ++ rest) ≡ rest) len (drop-length_append xs rest) in
    rw (le→leb n (length (xs ++ rest)) (omega (arith, length-append xs rest, len)), front, back)

-- An integer that is sent is received.
load-send : (n w : ℕ) → w < 256 ^ n → load n (string_bytes (send_bytes n (object_bytes w) 0)) 0 ≡ w
load-send n w hw = load-object n _ 0 w hw λ i hi.
    let e : 0 + i ≡ i = omega arith in
    rw e (send_bytes-index n (object_bytes w) 0 i hi ∙ ap (object_bytes w) e)

-- The range of an int64_t.
abbrev pub IsInt64 : Status → Type 0
IsInt64 (Status.pos n) = n < 2 ^ 63
IsInt64 (Status.negsuc n) = n < 2 ^ 63

pattern64-lt : (id : Status) → pattern64 id < 256 ^ 8
unfolding pattern64
pattern64-lt (Status.pos n) = omega arith
pattern64-lt (Status.negsuc n) = omega arith

pub signed64-pattern64 : (id : Status) → IsInt64 id → signed64 (pattern64 id) ≡ id
unfolding signed64 pattern64
signed64-pattern64 (Status.pos n) h =
    let e : n % 2 ^ 64 ≡ n = omega arith in rw (e, lt→ltb n (2 ^ 63) h)
signed64-pattern64 (Status.negsuc n) h =
    let e : n % 2 ^ 64 ≡ n = omega arith in
    let e' : 2 ^ 64 - 1 - (2 ^ 64 - 1 - n) ≡ n = omega arith in
    rw (e, le→ltb (2 ^ 64 - 1 - n) (2 ^ 63) (omega arith), e')

-- What is received after a package was sent, whatever its message id.
pub receive_package-sent :
    (m : Package) (rest : List ℕ)
    → m.size < 2 ^ 32
    → receive_package (send_package m ++ rest)
      ≡ some (
        record {
          message_id = signed64 (pattern64 m.message_id);
          size = m.size;
          content = string_bytes (send_bytes m.size m.content 0);
        },
        rest,
      )
unfolding receive_package send_package
receive_package-sent m rest hsize =
    let head = send_bytes 8 (object_bytes (pattern64 m.message_id)) 0 in
    let size = send_bytes 4 (object_bytes m.size) 0 in
    let body = send_bytes m.size m.content 0 in
    rw (
      append_assoc head (size ++ body) rest,
      append_assoc size body rest,
      receive_bytes-send 8 (object_bytes (pattern64 m.message_id)) (size ++ (body ++ rest)),
      receive_bytes-send 4 (object_bytes m.size) (body ++ rest),
      load-send 4 m.size hsize,
      receive_bytes-send m.size m.content rest,
      load-send 8 (pattern64 m.message_id) (pattern64-lt m.message_id),
    )

-- A package whose message id is in the range of an int64_t, and whose size is below 2 ^ 32, is
-- received as it was sent, whatever follows it on the socket: with its id, its size and all its
-- data; what follows is left.
pub receive_package-send_package :
    (m : Package) (rest : List ℕ)
    → IsInt64 m.message_id
    → m.size < 2 ^ 32
    → (content : Bytes) × (receive_package (send_package m ++ rest)
        ≡ some (record { message_id = m.message_id; size = m.size; content = content }, rest))
      × ((i : ℕ) → i < m.size → content i ≡ m.content i)
receive_package-send_package m rest hid hsize = (
  string_bytes (send_bytes m.size m.content 0),
  rw (receive_package-sent m rest hsize, signed64-pattern64 m.message_id hid),
  λ i hi. send_bytes-index m.size m.content 0 i hi ∙ ap m.content (omega arith),
)
