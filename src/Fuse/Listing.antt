-- ===== src/Fuse/Listing.antt =====
-- The answer to `readdir`: the names that the server appends are the names that the client reads.
use linuse_fs.Base.{
  ℕ, zero, suc, ◌+◌, ◌%◌, ◌^◌, ◌<◌, ◌≡◌, refl, ◌∙◌, some, List, [], ◌∷◌, ◌++◌, arith, length, All,
  lt→ltb, le→ltb, le→leb,
}
use linuse_fs.Memory.{Bytes, memcpy, object_bytes, load, string_bytes}
use linuse_fs.Platform.{Platform}
use linuse_fs.Package.{Package}
use linuse_fs.Package.Copies.{HoldsString, IsString, read_string-HoldsString}
use linuse_fs.Memory.Laws.{memcpy-inside, memcpy-outside, load-ext}
use linuse_fs.Status.{success}
use linuse_fs.Protocol.Strings.{
  stringed, serialize_string-stringed, string_serialized_size-eq, HoldsString-stringed,
}
use linuse_fs.Server.Response.{create_default_package, append_name, append_names, readdir_response}
use linuse_fs.Fuse.{read_names, do_readdir}
use mathlib.Core.List.{append_assoc, append-nil}

-- The bytes that the names take in a package.
abbrev pub total : List (List ℕ) → ℕ
total [] = 0
total (name ∷ names) = length name + 3 + total names

-- The serialized names stand one behind the other from `at` on.
abbrev pub HoldsNames : Bytes → ℕ → List (List ℕ) → Type 0
HoldsNames b at [] = Unit {0}
HoldsNames b at (name ∷ names) = HoldsString b at name × HoldsNames b (at + (length name + 3)) names

-- A name that can be listed: a string, with a length that two bytes hold.
abbrev pub IsName : List ℕ → Type 0
IsName name = IsString name × (length name + 3 < 2 ^ 16)

HoldsString-ext :
    (b c : Bytes) (at : ℕ) (s : List ℕ)
    → ((i : ℕ) → i < at + (length s + 3) → c i ≡ b i)
    → HoldsString b at s
    → HoldsString c at s
unfolding load
HoldsString-ext b c at s same h = record {
  length_there = load-ext 2 c b at at 0 (λ i hi. same (at + i) (omega arith)) ∙ h.length_there;
  characters = λ i hi. same (at + 2 + i) (omega arith) ∙ h.characters i hi;
}

pub HoldsNames-ext :
    (b c : Bytes) (at : ℕ) (names : List (List ℕ))
    → ((i : ℕ) → i < at + total names → c i ≡ b i)
    → HoldsNames b at names
    → HoldsNames c at names
HoldsNames-ext b c at [] same h = tt
HoldsNames-ext b c at (name ∷ names) same (h, rest) = (
  HoldsString-ext b c at name (λ i hi. same i (omega arith)) h,
  HoldsNames-ext b c (at + (length name + 3)) names (λ i hi. same i (omega arith)) rest,
)

HoldsNames-snoc :
    (b : Bytes) (at : ℕ) (names : List (List ℕ)) (name : List ℕ)
    → HoldsNames b at names
    → HoldsString b (at + total names) name
    → HoldsNames b at (names ++ (name ∷ []))
HoldsNames-snoc b at [] name h last = let e : at + 0 ≡ at = omega arith in (rw e at last, tt)
HoldsNames-snoc b at (n ∷ names) name (h, rest) last =
    let e : at + (length n + 3 + total names) ≡ at + (length n + 3) + total names = omega arith in
    (h, HoldsNames-snoc b (at + (length n + 3)) names name rest (rw e at last))

total-snoc :
    (names : List (List ℕ)) (name : List ℕ)
    → total (names ++ (name ∷ [])) ≡ total names + (length name + 3)
total-snoc [] name = omega arith
total-snoc (n ∷ names) name = omega (arith, total-snoc names name)

pub read_names-HoldsNames :
    (fuel : ℕ) (m : Package) (at : ℕ) (names : List (List ℕ))
    → All IsName names
    → HoldsNames m.content at names
    → m.size ≡ at + total names
    → total names < fuel
    → read_names fuel m at ≡ some names
unfolding read_names
read_names-HoldsNames zero m at names ok_names h size enough = absurd (omega arith)
read_names-HoldsNames (suc fuel) m at [] ok_names h size enough =
    rw (le→ltb at m.size (omega arith))
read_names-HoldsNames (suc fuel) m at (name ∷ names) ((hs, small), others) (h, rest) size enough =
    let next : at + 2 + (length name + 1) ≡ at + (length name + 3) = omega arith in
    rw (
      lt→ltb at m.size (omega arith),
      le→leb (at + 2) m.size (omega arith),
      h.length_there,
      read_string-HoldsString m.content at name hs h,
      next,
      le→leb (at + (length name + 3)) m.size (omega arith),
      h.length_there,
      next,
      read_names-HoldsNames fuel m (at + (length name + 3)) names others rest (omega arith)
          (omega arith),
    )

module _ ⦃p : Platform⦄ where
  -- The package after one more name.
  abbrev with_name : Package → List ℕ → Package
  with_name m name = record {
    message_id = m.message_id;
    size = m.size + (length name + 3);
    content = stringed (memcpy p.garbage 0 m.content 0 m.size) m.size name;
  }

  append_name-with_name :
      (m : Package) (name : List ℕ)
      → length name + 3 < 2 ^ 16
      → m.size + (length name + 3) < 2 ^ 32
      → append_name m name ≡ some (with_name m name)
  unfolding append_name
  append_name-with_name m name fits small =
      let whole = m.size + (length name + 3) in
      let e : whole % 2 ^ 32 ≡ whole = omega arith in
      rw (
        string_serialized_size-eq name fits,
        e,
        serialize_string-stringed whole name (memcpy p.garbage 0 m.content 0 m.size) m.size
            (omega arith) (omega arith),
      )

  append_names-HoldsNames :
      (names seen : List (List ℕ)) (m : Package)
      → All IsName names
      → HoldsNames m.content 0 seen
      → m.size ≡ total seen
      → total seen + total names < 2 ^ 32
      → (content : Bytes) × (append_names names m
          ≡ some (record {
            message_id = m.message_id;
            size = total seen + total names;
            content = content;
          }))
        × HoldsNames content 0 (seen ++ names)
  unfolding append_names
  append_names-HoldsNames [] seen m ok_names h size small =
      let e : total seen + 0 ≡ m.size = omega arith in (m.content, rw e, rw append-nil h)
  append_names-HoldsNames (name ∷ names) seen m ((hs, fits), others) h size small =
      let at = m.size in
      let old = memcpy p.garbage 0 m.content 0 at in
      let kept : HoldsNames (stringed old at name) 0 seen =
        HoldsNames-ext m.content (stringed old at name) 0 seen
          (λ i hi.
            let z : 0 + i ≡ i = omega arith in
            memcpy-outside _ (at + 2) (string_bytes name) 0 (length name + 1) i (omega arith)
            ∙ memcpy-outside old at (object_bytes (length name + 1)) 0 2 i (omega arith)
            ∙ rw z at (memcpy-inside p.garbage 0 m.content 0 at i (omega arith)))
          h in
      let new : HoldsString (stringed old at name) (0 + total seen) name =
        let z : 0 + total seen ≡ at = omega arith in
        rw z (HoldsString-stringed old at name (omega arith)) in
      let (content, done, holds) =
        append_names-HoldsNames names (seen ++ (name ∷ [])) (with_name m name) others
          (HoldsNames-snoc _ 0 seen name kept new) (omega (arith, total-snoc seen name))
          (omega (arith, total-snoc seen name)) in
      let sizes : total (seen ++ (name ∷ [])) + total names
          ≡ total seen + (length name + 3 + total names) =
        omega (arith, total-snoc seen name) in
      (
        content,
        rw (append_name-with_name m name fits (omega arith)) (rw sizes at done),
        rw append_assoc at holds,
      )

  -- The data of the answer.
  pub readdir_response-HoldsNames :
      (names : List (List ℕ))
      → All IsName names
      → total names < 2 ^ 32
      → (content : Bytes) × (readdir_response (some names)
          ≡ some (record { message_id = success; size = 0 + total names; content = content }))
        × HoldsNames content 0 names
  unfolding readdir_response create_default_package
  readdir_response-HoldsNames names ok_names small =
      append_names-HoldsNames names [] (create_default_package success) ok_names tt refl
        (omega arith)

  -- The names that the server has found are handed to the client's filler behind "." and "..",
  -- in the same order, if each is a string without a 0 shorter than 2 ^ 16 - 3 bytes, and
  -- together they take fewer than 2 ^ 32 bytes.
  pub do_readdir-readdir_response :
      (names : List (List ℕ))
      → All IsName names
      → total names < 2 ^ 32
      → (m : Package) × (readdir_response (some names) ≡ some m)
        × (do_readdir m ≡ some ((b'.' ∷ []) ∷ (b'.' ∷ b'.' ∷ []) ∷ names))
  unfolding do_readdir
  do_readdir-readdir_response names ok_names small =
      let (content, done, holds) = readdir_response-HoldsNames names ok_names small in
      let m : Package = record {
        message_id = success;
        size = 0 + total names;
        content = content;
      } in
      (
        m,
        done,
        rw (
            read_names-HoldsNames (0 + total names + 1) m 0 names ok_names holds (omega arith)
              (omega arith)),
      )
