-- ===== src/Protocol/Trim.antt =====
-- The server reads a package up to its size: what stands behind it makes no difference.
use linuse_fs.Base.{
  ℕ, ◌+◌, ◌-◌, ◌≤◌, ◌<◌, ◌≡◌, refl, inl, inr, true, false, none, arith, ltb, leb, if◌then◌else◌,
  fun_ext, ltb→lt, leb→le, Bool-cases,
}
use linuse_fs.Memory.{Bytes, memcpy}
use linuse_fs.Platform.{Platform}
use linuse_fs.Package.{Package, take_buffer}
use linuse_fs.Status.{Status}
use linuse_fs.Protocol.Deserialize.{
  take_int, deserialize_path_int, deserialize_open, deserialize_close, deserialize_write,
  deserialize_read, deserialize_remove, deserialize_rename, deserialize_truncate, deserialize_id,
  deserialize,
}

-- A package with zeros behind its data.
abbrev pub trim : Package → Package
trim m = record m { content = λ i. if ltb i m.size then m.content i else 0 }

memcpy-trim :
    (m : Package) (fresh : Bytes) (from n : ℕ)
    → from + n ≤ m.size
    → memcpy fresh 0 (trim m).content from n ≡ memcpy fresh 0 m.content from n
unfolding memcpy
memcpy-trim m fresh from n h = fun_ext λ i. elim (Bool-cases (ltb i (0 + n))) [
  | inl e ↦ let inside : ltb (from + (i - 0)) m.size ≡ true = ground arith in rw (e, inside)
  | inr e ↦ rw e (ground arith)
]

take_buffer-trim :
    (m : Package) (fresh : Bytes) (from n : ℕ)
    → take_buffer (trim m) fresh from n ≡ take_buffer m fresh from n
unfolding take_buffer
take_buffer-trim m fresh from n = elim (Bool-cases (leb (from + n) m.size)) [
  | inl e ↦ rw (e, memcpy-trim m fresh from n (leb→le (from + n) m.size e))
  | inr e ↦ rw e
]

module _ ⦃p : Platform⦄ where
  deserialize_id-trim : (id : ℕ) (m : Package) → deserialize_id id (trim m) ≡ deserialize_id id m
  unfolding deserialize_id deserialize_open deserialize_close deserialize_write deserialize_read
      deserialize_remove deserialize_rename deserialize_truncate deserialize_path_int take_int
  deserialize_id-trim id m = simp (take_buffer-trim m)

  pub deserialize-trim : (m : Package) → deserialize (trim m) ≡ deserialize m
  unfolding deserialize
  deserialize-trim m = by_id m.message_id
    where
      by_id :
          (id : Status)
          → (elim id [ Status.pos k ↦ deserialize_id k (trim m) | Status.negsuc n ↦ none ])
            ≡ (elim id [ Status.pos k ↦ deserialize_id k m | Status.negsuc n ↦ none ])
      by_id (Status.pos k) = deserialize_id-trim k m
      by_id (Status.negsuc n) = refl

-- Two packages with the same id, size and data are the same up to their size.
pub trim-ext :
    (m m' : Package)
    → m.message_id ≡ m'.message_id
    → m.size ≡ m'.size
    → ((i : ℕ) → i < m.size → m.content i ≡ m'.content i)
    → trim m ≡ trim m'
trim-ext m m' id size same =
    let content : (trim m).content ≡ (trim m').content = fun_ext λ i.
      elim (Bool-cases (ltb i m.size)) [
        | inl e ↦
            let e' : ltb i m'.size ≡ true = rw (← size) e in rw (e, e') (same i (ltb→lt i m.size e))
        | inr e ↦ let e' : ltb i m'.size ≡ false = rw (← size) e in rw (e, e') refl
      ] in
    λ j. record { message_id = id j; size = size j; content = content j }
