-- ===== src/Protocol/Strings.antt =====
-- Strings inside packages: written by `_serialize_string`, and read by the deserializing functions.
use linuse_fs.Base.{ℕ, ◌+◌, ◌^◌, ◌≤◌, ◌<◌, ◌≡◌, ap, ◌∙◌, Option, some, List, arith, length}
use linuse_fs.Memory.{Bytes, memcpy, object_bytes, string_bytes}
use linuse_fs.Platform.{Platform}
use linuse_fs.Package.{Package, ◌>>=◌, u16, buffer_int}
use linuse_fs.Package.Copies.{put-some, take_buffer-some, buffer_int-copied, HoldsString}
use linuse_fs.Memory.Laws.{memcpy-inside, load-memcpy, load-memcpy_ne}
use linuse_fs.Request.{Request, request_of}
use linuse_fs.Protocol.Serialize.{string_serialized_size, serialize_string}
use linuse_fs.Protocol.Deserialize.{take_int, deserialize}

-- The array after `serialize_string`.
abbrev pub stringed : Bytes → ℕ → List ℕ → Bytes
stringed b at s =
    memcpy (memcpy b at (object_bytes (length s + 1)) 0 2) (at + 2) (string_bytes s) 0
      (length s + 1)

pub serialize_string-stringed :
    (size : ℕ) (s : List ℕ) (b : Bytes) (at : ℕ)
    → at + 2 + length s + 1 ≤ size
    → length s + 1 < 2 ^ 16
    → serialize_string size s b at ≡ some (stringed b at s)
unfolding serialize_string
serialize_string-stringed size s b at fits small =
    let e : u16 (length s + 1) ≡ length s + 1 = omega arith in
    rw (
      e,
      put-some size b at (object_bytes (length s + 1)) 2 (omega arith),
      put-some size _ (at + 2) (string_bytes s) (length s + 1) (omega arith),
    )

pub string_serialized_size-eq :
    (s : List ℕ) → length s + 3 < 2 ^ 16 → string_serialized_size s ≡ length s + 3
unfolding string_serialized_size
string_serialized_size-eq s h = omega arith

pub HoldsString-stringed :
    (b : Bytes) (at : ℕ) (s : List ℕ) → length s + 1 < 2 ^ 16 → HoldsString (stringed b at s) at s
HoldsString-stringed b at s small = record {
  length_there =
      load-memcpy_ne 2 _ (at + 2) (string_bytes s) 0 (length s + 1) at (omega arith)
      ∙ load-memcpy 2 b at (length s + 1) (omega arith);
  characters = λ i hi.
      memcpy-inside _ (at + 2) (string_bytes s) 0 (length s + 1) i hi
      ∙ ap (string_bytes s) (omega arith);
}

module _ ⦃p : Platform⦄ where
  -- The length in front of a string is read as it was written.
  pub take_int-string :
      (message : Package) (at : ℕ) (s : List ℕ)
      → HoldsString message.content at s
      → at + 2 ≤ message.size
      → take_int message at 2 ≡ some (length s + 1)
  unfolding take_int buffer_int
  take_int-string message at s h fits =
      rw (take_buffer-some message p.garbage at 2 fits)
        (buffer_int-copied message p.garbage at 2 ∙ ap some h.length_there)

  -- What the server reads from what the client made.
  abbrev pub travel : Option Package → Option Request
  travel m = (m >>= deserialize) >>= request_of
