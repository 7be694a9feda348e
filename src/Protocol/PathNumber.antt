-- ===== src/Protocol/PathNumber.antt =====
-- Requests with a path and a number: what the client serializes is what the server reads.
use linuse_fs.Base.{
  ℕ, ◌+◌, ◌%◌, ◌^◌, ◌<◌, ◌≡◌, refl, ◌∙◌, some, List, [], ◌∷◌, arith, length, le→leb,
}
use linuse_fs.Memory.{memcpy, object_bytes, load}
use linuse_fs.Platform.{Platform}
use linuse_fs.Package.{Package, u16, buffer_string}
use linuse_fs.Package.Copies.{
  put-some, copied, take_buffer-some, load-copied, HoldsString, HoldsString-memcpy, IsString,
  buffer_string-copied,
}
use linuse_fs.Memory.Laws.{load-memcpy}
use linuse_fs.Identifier
use linuse_fs.Status.{Status}
use linuse_fs.Request.{Request, string_arg, int_arg, path_request, request_of}
use linuse_fs.Protocol.Serialize.{
  serialize_path_mode, serialize_open, serialize_mkdir, serialize_truncate,
}
use linuse_fs.Protocol.Deserialize.{
  deserialize_path_int, deserialize_open, deserialize_truncate, deserialize_id, deserialize,
}
use linuse_fs.Protocol.Strings.{
  stringed, serialize_string-stringed, string_serialized_size-eq, HoldsString-stringed,
  take_int-string, travel,
}

module _ ⦃p : Platform⦄ where
  deserialize_path_int-eq :
      (id n : ℕ) (message : Package) (path : List ℕ)
      → HoldsString message.content 0 path
      → message.size ≡ length path + 3 + n
      → deserialize_path_int id message n
        ≡ some (record {
          function_id = id;
          args =
              copied message p.garbage 2 (length path + 1)
              ∷ copied message p.garbage (2 + (length path + 1)) n
              ∷ [];
        })
  unfolding deserialize_path_int
  deserialize_path_int-eq id n message path h size = rw (
    take_int-string message 0 path h (omega arith),
    take_buffer-some message p.garbage 2 (length path + 1) (omega arith),
    take_buffer-some message p.garbage (2 + (length path + 1)) n (omega arith),
  )

  -- A string argument, and an integer argument behind it.
  path_arg :
      (message : Package) (path : List ℕ)
      → IsString path
      → HoldsString message.content 0 path
      → buffer_string (copied message p.garbage 2 (length path + 1)) ≡ some path
  path_arg message path hs h = buffer_string-copied message p.garbage 0 path hs h

  -- A package with a path and an integer of `n` bytes.
  abbrev path_int : ℕ → List ℕ → ℕ → ℕ → Package
  path_int id path n w = record {
    message_id = Status.pos id;
    size = length path + 3 + n;
    content = memcpy (stringed p.garbage 0 path) (length path + 3) (object_bytes w) 0 n;
  }

  HoldsString-path_int :
      (id : ℕ) (path : List ℕ) (n w : ℕ)
      → length path + 1 < 2 ^ 16
      → HoldsString (path_int id path n w).content 0 path
  HoldsString-path_int id path n w small =
      HoldsString-memcpy (length path + 3) (object_bytes w) 0 n
        (HoldsString-stringed p.garbage 0 path small) (omega arith)

  load-path_int :
      (id : ℕ) (path : List ℕ) (n w : ℕ)
      → w < 256 ^ n
      → load n (copied (path_int id path n w) p.garbage (2 + (length path + 1)) n).bytes 0 ≡ w
  load-path_int id path n w hw =
      let e : 2 + (length path + 1) ≡ length path + 3 = omega arith in
      rw e (
        load-copied (path_int id path n w) p.garbage (length path + 3) n
        ∙ load-memcpy n _ (length path + 3) w hw)

  serialize_path_mode-eq :
      (id : ℕ) (path : List ℕ) (mode : ℕ)
      → length path + 5 < 2 ^ 16
      → serialize_path_mode id path mode ≡ some (path_int id path 2 (u16 mode))
  unfolding serialize_path_mode
  serialize_path_mode-eq id path mode small = rw (
    string_serialized_size-eq path (omega arith),
    serialize_string-stringed (length path + 3 + 2) path p.garbage 0 (omega arith) (omega arith),
    put-some (length path + 3 + 2) _ (length path + 3) (object_bytes (u16 mode)) 2 (omega arith),
  )

  -- An `open` request reaches the server with its path and the low 16 bits of its mode, for a
  -- path without a 0 that is shorter than 2 ^ 16 - 5 bytes.
  pub travel-serialize_open :
      (path : List ℕ) (mode : ℕ)
      → IsString path
      → length path + 5 < 2 ^ 16
      → travel (serialize_open path mode) ≡ some (Request.open_file path (mode % 2 ^ 16))
  unfolding serialize_open deserialize deserialize_id deserialize_open request_of string_arg int_arg
  travel-serialize_open path mode hs small =
      let m = path_int Identifier.open_file path 2 (u16 mode) in
      let h = HoldsString-path_int Identifier.open_file path 2 (u16 mode) (omega arith) in
      rw (
        serialize_path_mode-eq Identifier.open_file path mode small,
        deserialize_path_int-eq Identifier.open_file 2 m path h refl,
        path_arg m path hs h,
        load-path_int Identifier.open_file path 2 (u16 mode) (omega arith),
      )

  -- A `mkdir` request reaches the server with its path, for a path without a 0 that is shorter
  -- than 2 ^ 16 - 5 bytes.
  pub travel-serialize_mkdir :
      (path : List ℕ) (mode : ℕ)
      → IsString path
      → length path + 5 < 2 ^ 16
      → travel (serialize_mkdir path mode) ≡ some (Request.mkdir path)
  unfolding serialize_mkdir deserialize deserialize_id deserialize_open request_of path_request
      string_arg
  travel-serialize_mkdir path mode hs small =
      let m = path_int Identifier.mkdir path 2 (u16 mode) in
      let h = HoldsString-path_int Identifier.mkdir path 2 (u16 mode) (omega arith) in
      rw (
        serialize_path_mode-eq Identifier.mkdir path mode small,
        deserialize_path_int-eq Identifier.mkdir 2 m path h refl,
        path_arg m path hs h,
      )

  -- A `truncate` request reaches the server with its path and its length, for a path without a
  -- 0 that is shorter than 2 ^ 16 - 3 bytes, and a length that fits an off_t; client and server
  -- have the same off_t.
  pub travel-serialize_truncate :
      (path : List ℕ) (w : ℕ)
      → IsString path
      → length path + 3 < 2 ^ 16
      → w < 256 ^ p.off_t_size
      → travel (serialize_truncate path w) ≡ some (Request.truncate path w)
  unfolding serialize_truncate deserialize deserialize_id deserialize_truncate request_of string_arg
      int_arg
  travel-serialize_truncate path w hs small hw =
      let n = p.off_t_size in
      let m = path_int Identifier.truncate path n w in
      let h = HoldsString-path_int Identifier.truncate path n w (omega arith) in
      rw (
        string_serialized_size-eq path (omega arith),
        serialize_string-stringed (length path + 3 + n) path p.garbage 0 (omega arith)
            (omega arith),
        put-some (length path + 3 + n) _ (length path + 3) (object_bytes w) n (omega arith),
        deserialize_path_int-eq Identifier.truncate n m path h refl,
        path_arg m path hs h,
        le→leb n n (omega arith),
        load-path_int Identifier.truncate path n w hw,
      )
