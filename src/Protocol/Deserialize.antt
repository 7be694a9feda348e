-- ===== src/Protocol/Deserialize.antt =====
-- The functions deserialize_* of mtserver/src/serialization.c, which the server calls.
use linuse_fs.Base.{ℕ, ◌+◌, Option, none, some, List, [], ◌∷◌, ◌==◌, if◌then◌else◌, length}
use linuse_fs.Memory.{load}
use linuse_fs.Platform.{Platform}
use linuse_fs.Package.{Package, Buffer, Function, ◌>>=◌ as bind, take_buffer}
use linuse_fs.Status.{Status}
use linuse_fs.Identifier

infixl 5 ◌>>=◌
abbrev ◌>>=◌ : {A B : Type 0} → Option A → (A → Option B) → Option B
m >>= k = bind m k

abbrev function : ℕ → List Buffer → Function
function id args = record { function_id = id; args = args }

module _ ⦃p : Platform⦄ where
  -- An integer of `n` bytes that is copied out of the message into a variable.
  unfoldable pub take_int : Package → ℕ → ℕ → Option ℕ
  unfolding take_buffer
  take_int message from n = do b ← take_buffer message p.garbage from n; some (load n b.bytes 0)

  -- A path, and `n` bytes behind it: `deserialize_open` for a mode, `deserialize_truncate` for an
  -- off_t.
  unfoldable pub deserialize_path_int : ℕ → Package → ℕ → Option Function
  unfolding take_int take_buffer
  deserialize_path_int id message n = do
    length ← take_int message 0 2
    path ← take_buffer message p.garbage 2 length
    value ← take_buffer message p.garbage (2 + length) n
    some (function id (path ∷ value ∷ []))

  unfoldable pub deserialize_open : ℕ → Package → Option Function
  unfolding deserialize_path_int
  deserialize_open id message = deserialize_path_int id message 2

  unfoldable pub deserialize_close : ℕ → Package → Option Function
  unfolding take_buffer
  deserialize_close id message = do
    fd ← take_buffer message p.garbage 0 message.size
    some (function id (fd ∷ []))

  unfoldable pub deserialize_write : ℕ → Package → Option Function
  unfolding take_buffer
  deserialize_write id message = do
    fd ← take_buffer message p.garbage 0 2
    count ← take_buffer message p.garbage 2 4
    let scount = load 4 count.bytes 0
    buffer ← take_buffer message p.garbage 6 scount
    offset ← take_buffer message p.garbage (6 + scount) 4
    some (function id (fd ∷ buffer ∷ count ∷ offset ∷ []))

  unfoldable pub deserialize_read : ℕ → Package → Option Function
  unfolding take_buffer
  deserialize_read id message = do
    fd ← take_buffer message p.garbage 0 2
    count ← take_buffer message p.garbage 2 4
    offset ← take_buffer message p.garbage 6 4
    some (function id (fd ∷ count ∷ offset ∷ []))

  unfoldable pub deserialize_remove : ℕ → Package → Option Function
  unfolding take_int take_buffer
  deserialize_remove id message = do
    length ← take_int message 0 2
    path ← take_buffer message p.garbage 2 length
    some (function id (path ∷ []))

  unfoldable pub deserialize_rename : ℕ → Package → Option Function
  unfolding take_int take_buffer
  deserialize_rename id message = do
    length1 ← take_int message 0 2
    old_path ← take_buffer message p.garbage 2 length1
    length2 ← take_int message (2 + length1) 2
    new_path ← take_buffer message p.garbage (2 + length1 + 2) length2
    some (function id (old_path ∷ new_path ∷ []))

  unfoldable pub deserialize_truncate : ℕ → Package → Option Function
  unfolding deserialize_path_int
  deserialize_truncate id message = deserialize_path_int id message p.off_t_size

  -- The switch over a message id that is not negative. For an id of no function the answer is a
  -- null pointer, which the caller reads at once.
  unfoldable pub deserialize_id : ℕ → Package → Option Function
  unfolding deserialize_open deserialize_close deserialize_write deserialize_read deserialize_remove
      deserialize_rename deserialize_truncate
  deserialize_id id message =
      if id == Identifier.open_file
      then deserialize_open id message
      else if id == Identifier.close
      then deserialize_close id message
      else if id == Identifier.write
      then deserialize_write id message
      else if id == Identifier.read
      then deserialize_read id message
      else if id == Identifier.remove
      then deserialize_remove id message
      else if id == Identifier.mkdir
      then deserialize_open id message
      else if id == Identifier.rmdir
      then deserialize_remove id message
      else if id == Identifier.stat
      then deserialize_open id message
      else if id == Identifier.readdir
      then deserialize_remove id message
      else if id == Identifier.rename
      then deserialize_rename id message
      else if id == Identifier.truncate
      then deserialize_truncate id message
      else none

  unfoldable pub deserialize : Package → Option Function
  unfolding deserialize_id
  deserialize message = elim (message.message_id) [
    | Status.pos id ↦ deserialize_id id message
    | Status.negsuc n ↦ none
  ]
