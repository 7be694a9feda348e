-- ===== src/Sample.antt =====
-- A platform for the examples: bits and strings of its own, which meet the documented behaviour.
use linuse_fs.Base.{
  ℕ, zero, suc, ◌+◌, ◌-◌, ◌*◌, ◌/◌, ◌%◌, ◌<◌, ◌≡◌, refl, inl, inr, List, [], ◌∷◌, ◌++◌, arith, ◌==◌,
  if◌then◌else◌, length, take, drop, str_eq, Bool-cases,
}
use linuse_fs.Platform.{BitArray, Platform, BitLaws}

-- Binary digit `k` of a number, read, set and cleared.
unfoldable pub digit : ℕ → ℕ → ℕ
digit v zero = v % 2
digit v (suc k) = digit (v / 2) k

unfoldable pub set_digit : ℕ → ℕ → ℕ → ℕ
set_digit d v zero = v - v % 2 + d
set_digit d v (suc k) = v % 2 + 2 * set_digit d (v / 2) k

digit-set_digit :
    (d v k j : ℕ) → d < 2 → digit (set_digit d v k) j ≡ (if k == j then d else digit v j)
unfolding digit set_digit
digit-set_digit d v zero zero h = omega arith
digit-set_digit d v zero (suc j) h =
    let e : (v - v % 2 + d) / 2 ≡ v / 2 = omega arith in rw e (ground arith)
digit-set_digit d v (suc k) zero h = ground arith
digit-set_digit d v (suc k) (suc j) h =
    let half : (v % 2 + 2 * set_digit d (v / 2) k) / 2 ≡ set_digit d (v / 2) k = omega arith in
    rw (half, digit-set_digit d (v / 2) k j h) (ground arith)

-- Bit `i`, the highest bit of a byte first.
unfoldable pub bit : BitArray → ℕ → ℕ
unfolding digit
bit b i = digit (b.bitarray (i / 8)) (7 - i % 8)

unfoldable pub change_bit : ℕ → BitArray → ℕ → BitArray
unfolding set_digit
change_bit d b i = record b {
  bitarray = λ j. if j == i / 8 then set_digit d (b.bitarray j) (7 - i % 8) else b.bitarray j;
}

bit-change_bit :
    (d : ℕ) (b : BitArray) (i j : ℕ)
    → d < 2
    → bit (change_bit d b i) j ≡ (if i == j then d else bit b j)
unfolding bit change_bit
bit-change_bit d b i j h = elim (Bool-cases (j / 8 == i / 8)) [
  | inl e ↦ rw (e, digit-set_digit d (b.bitarray (j / 8)) (7 - i % 8) (7 - j % 8) h) (ground arith)
  | inr n ↦ rw n (ground arith)
]

digit-zero : (k : ℕ) → digit 0 k ≡ 0
unfolding digit
digit-zero zero = refl
digit-zero (suc k) = digit-zero k

-- The parts of a text between slashes, without the empty ones; `part` is the current one.
unfoldable pub split : List ℕ → List ℕ → List (List ℕ)
split [] part = if length part == 0 then [] else part ∷ []
split (c ∷ s) part =
    let rest = split s [] in
    let longer = split s (part ++ (c ∷ [])) in
    if c == b'/' then (if length part == 0 then rest else part ∷ rest) else longer

abbrev pub unix : ℕ → Platform
unix pointer_size = record {
  pointer_size = pointer_size;
  off_t_size = 8;
  test_bit = λ b i. bit b i == 1;
  set_bit = change_bit 1;
  clean_bit = change_bit 0;
  string_repeat = λ c n i. c;
  string_is_empty = λ s. length s == 0;
  string_split = λ s t. split s [];
  string_starts_with = λ s t. str_eq (take (length t) s) t;
  string_ends_with = λ s t. str_eq (drop (length s - length t) s) t;
  string_substring_until = λ s n. take n s;
  now = 1_574_035_200;
  garbage = λ i. 0xee;
}

pub unix-BitLaws : (n : ℕ) → BitLaws (unix n)
unfolding bit change_bit
unix-BitLaws n = record {
  size-set_bit = λ b i. refl;
  size-clean_bit = λ b i. refl;
  test_bit-set_bit = λ b i j hi hj. rw (bit-change_bit 1 b i j (omega arith)) (ground arith);
  test_bit-clean_bit = λ b i j hi hj. rw (bit-change_bit 0 b i j (omega arith)) (ground arith);
  test_bit-zero = λ b i zeros hi. rw (zeros (i / 8) (omega arith), digit-zero);
  test_bit-ext = λ b c i size same hi. rw (same (i / 8) (omega arith));
}
