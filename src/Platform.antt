-- ===== src/Platform.antt =====
-- What the sources take from outside the repository: the bit arrays and the strings of
-- so-commons-library (commons/bitarray.h, commons/string.h), the clock, the bytes of fresh memory,
-- and the size of a pointer.
use linuse_fs.Base.{ℕ, ◌*◌, ◌<◌, ◌≡◌, Bool, true, false, List, [], ◌∷◌, ◌==◌, if◌then◌else◌}
use linuse_fs.Memory.{Bytes}

-- `t_bitarray`: its bytes and how many they are. The mode is MSB_FIRST throughout.
pub record BitArray : Type 0 where
  pub bitarray : Bytes
  pub size : ℕ

pub record Platform : Type 0 where
  -- sizeof(void*), which is also sizeof(size_t): 4 or 8.
  pub pointer_size : ℕ
  -- sizeof(off_t)
  pub off_t_size : ℕ
  pub test_bit : BitArray → ℕ → Bool
  pub set_bit : BitArray → ℕ → BitArray
  pub clean_bit : BitArray → ℕ → BitArray
  pub string_repeat : ℕ → ℕ → Bytes
  pub string_is_empty : List ℕ → Bool
  pub string_split : List ℕ → List ℕ → List (List ℕ)
  pub string_starts_with : List ℕ → List ℕ → Bool
  pub string_ends_with : List ℕ → List ℕ → Bool
  pub string_substring_until : List ℕ → ℕ → List ℕ
  -- time(0)
  pub now : ℕ
  -- What `malloc` and an uninitialised array hold.
  pub garbage : Bytes

abbrev pub slash : List ℕ
slash = b'/' ∷ []

-- The documented behaviour of the bit arrays, for bits inside the array.
pub record BitLaws (p : Platform) : Type 0 where
  pub size-set_bit : (b : BitArray) (i : ℕ) → (p.set_bit b i).size ≡ b.size
  pub size-clean_bit : (b : BitArray) (i : ℕ) → (p.clean_bit b i).size ≡ b.size
  pub test_bit-set_bit :
      (b : BitArray) (i j : ℕ)
      → i < 8 * b.size
      → j < 8 * b.size
      → p.test_bit (p.set_bit b i) j ≡ (if i == j then true else p.test_bit b j)
  pub test_bit-clean_bit :
      (b : BitArray) (i j : ℕ)
      → i < 8 * b.size
      → j < 8 * b.size
      → p.test_bit (p.clean_bit b i) j ≡ (if i == j then false else p.test_bit b j)
  -- The bits are those of the bytes, eight to a byte.
  pub test_bit-zero :
      (b : BitArray) (i : ℕ)
      → ((j : ℕ) → j < b.size → b.bitarray j ≡ 0)
      → i < 8 * b.size
      → p.test_bit b i ≡ false
  pub test_bit-ext :
      (b c : BitArray) (i : ℕ)
      → b.size ≡ c.size
      → ((j : ℕ) → j < b.size → b.bitarray j ≡ c.bitarray j)
      → i < 8 * b.size
      → p.test_bit b i ≡ p.test_bit c i
