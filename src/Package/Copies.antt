-- ===== src/Package/Copies.antt =====
-- What is read back from a heap block that was filled by checked copies.
use linuse_fs.Base.{
  Option, ℕ, suc, ◌+◌, ◌≤◌, ◌<◌, ◌≡◌, ◌≢◌, refl, ◌∙◌, ◌⊎◌, none, some, List, [], ◌∷◌, arith, length,
  get_or, All, le→leb, lt→leb,
}
use linuse_fs.Memory.{Bytes, memcpy, load, string_bytes, read_string}
use linuse_fs.Package.{Package, Buffer, ◌>>=◌, put, take_buffer, buffer_int, buffer_string}
use linuse_fs.Wire.{send_bytes}
use linuse_fs.Memory.Laws.{memcpy-inside, memcpy-outside, load-memcpy_ne, load-ext, read_string-eq}

-- The two steps of a chain that succeeds.
pub bind-eq_some :
    {A B : Type 0} (m : Option A) (k : A → Option B) {b : B}
    → (m >>= k) ≡ some b
    → (a : A) × (m ≡ some a) × (k a ≡ some b)
bind-eq_some none k h = cc
bind-eq_some (some a) k h = (a, refl, h)

pub put-some :
    (size : ℕ) (dst : Bytes) (at : ℕ) (src : Bytes) (n : ℕ)
    → at + n ≤ size
    → put size dst at src n ≡ some (memcpy dst at src 0 n)
unfolding put
put-some size dst at src n h = rw (le→leb (at + n) size h)

-- The buffer that `take_buffer` makes.
abbrev pub copied : Package → Bytes → ℕ → ℕ → Buffer
copied message fresh from n = record { size = n; bytes = memcpy fresh 0 message.content from n }

pub take_buffer-some :
    (message : Package) (fresh : Bytes) (from n : ℕ)
    → from + n ≤ message.size
    → take_buffer message fresh from n ≡ some (copied message fresh from n)
unfolding take_buffer
take_buffer-some message fresh from n h = rw (le→leb (from + n) message.size h)

pub take_buffer-none :
    (message : Package) (fresh : Bytes) (from n : ℕ)
    → message.size < from + n
    → take_buffer message fresh from n ≡ none
unfolding take_buffer
take_buffer-none message fresh from n h = rw (lt→leb (from + n) message.size h)

-- A copied byte.
copied-byte :
    (message : Package) (fresh : Bytes) (from n i : ℕ)
    → i < n
    → (copied message fresh from n).bytes i ≡ message.content (from + i)
copied-byte message fresh from n i h =
    let e : 0 + i ≡ i = omega arith in rw e at (memcpy-inside fresh 0 message.content from n i h)

-- An integer in the package is the integer in its copy.
pub load-copied :
    (message : Package) (fresh : Bytes) (from n : ℕ)
    → load n (copied message fresh from n).bytes 0 ≡ load n message.content from
unfolding load
load-copied message fresh from n =
    load-ext n _ message.content 0 from 0
      λ i hi. memcpy-inside fresh 0 message.content from n i (omega arith)

pub buffer_int-copied :
    (message : Package) (fresh : Bytes) (from n : ℕ)
    → buffer_int n (copied message fresh from n) ≡ some (load n message.content from)
unfolding buffer_int
buffer_int-copied message fresh from n =
    rw (le→leb n n (omega arith), load-copied message fresh from n)

-- A serialized string: its length with the terminator in two bytes, and its characters.
pub record HoldsString (b : Bytes) (at : ℕ) (s : List ℕ) : Type 0 where
  pub length_there : load 2 b at ≡ length s + 1
  pub characters : (i : ℕ) → i < length s + 1 → b (at + 2 + i) ≡ string_bytes s i

pub HoldsString-memcpy :
    {b : Bytes} {at : ℕ} {s : List ℕ} (to : ℕ) (src : Bytes) (from n : ℕ)
    → HoldsString b at s
    → (at + 2 + length s + 1 ≤ to) ⊎ (to + n ≤ at)
    → HoldsString (memcpy b to src from n) at s
HoldsString-memcpy {b} {at} {s} to src from n h apart = record {
  length_there = load-memcpy_ne 2 b to src from n at (omega arith) ∙ h.length_there;
  characters =
      λ i hi. memcpy-outside b to src from n (at + 2 + i) (omega arith) ∙ h.characters i hi;
}

-- A string of bytes that are not 0.
abbrev pub IsString : List ℕ → Type 0
IsString s = All (λ c. c ≢ 0) s

pub read_string-HoldsString :
    (b : Bytes) (at : ℕ) (s : List ℕ)
    → IsString s
    → HoldsString b at s
    → read_string (length s + 1) b (at + 2) ≡ some s
unfolding string_bytes
read_string-HoldsString b at s hs h =
    read_string-eq s (length s + 1) b (at + 2) hs (omega arith) λ i hi. h.characters i (omega arith)

pub buffer_string-copied :
    (message : Package) (fresh : Bytes) (at : ℕ) (s : List ℕ)
    → IsString s
    → HoldsString message.content at s
    → buffer_string (copied message fresh (at + 2) (length s + 1)) ≡ some s
unfolding buffer_string string_bytes
buffer_string-copied message fresh at s hs h =
    read_string-eq s (length s + 1) _ 0 hs (omega arith) λ i hi.
      memcpy-inside fresh 0 message.content (at + 2) (length s + 1) i (omega arith)
      ∙ h.characters i (omega arith)

-- The first bytes of an array that begins with the bytes of a list.
pub send_bytes-eq :
    (s : List ℕ) (b : Bytes) (k : ℕ)
    → ((i : ℕ) → i < length s → b (k + i) ≡ get_or s i 0)
    → send_bytes (length s) b k ≡ s
unfolding send_bytes
send_bytes-eq [] b k h = refl
send_bytes-eq (c ∷ s) b k h =
    let e : k + 0 ≡ k = omega arith in
    let first : b k ≡ c = rw e at (h 0 (omega arith)) in
    let rest : send_bytes (length s) b (suc k) ≡ s =
      send_bytes-eq s b (suc k)
        λ i hi. let e' : suc k + i ≡ k + suc i = omega arith in rw e' (h (suc i) (omega arith)) in
    rw (first, rest)
