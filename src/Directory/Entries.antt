-- ===== src/Directory/Entries.antt =====
-- Lists of entries, taken apart at a name, and the bytes that hold them when they are moved.
use linuse_fs.Base.{
  ℕ, suc, ◌+◌, ◌-◌, ◌*◌, ◌≤◌, ◌<◌, ◌≡◌, refl, ap, ◌∙◌, ◌⊎◌, inl, inr, none, some, List, [], ◌∷◌,
  ◌++◌, arith, length, if◌then◌else◌, str_eq, str_eq→eq, length-append, Bool-cases,
}
use linuse_fs.Memory.{Bytes, load}
use linuse_fs.Memory.Laws.{load-ext, read_string-ext, memcpy-inside, memcpy-outside}
use linuse_fs.Disk.{block_size}
use linuse_fs.Directory.Update.{close_gap}
use linuse_fs.Directory.Block.{lookup, HoldsEntries}

-- The entries without the first one with a name.
abbrev pub erase : List ℕ → List (ℕ × List ℕ) → List (ℕ × List ℕ)
erase name [] = []
erase name ((num, entry_name) ∷ es) =
    if str_eq entry_name name then es else (num, entry_name) ∷ erase name es

-- A list is taken apart at the first entry with a name.
pub record IsFirst (name : List ℕ) (es before : List (ℕ × List ℕ)) (num : ℕ)
    (after : List (ℕ × List ℕ)) : Type 0 where
  pub parts : es ≡ before ++ ((num, name) ∷ after)
  pub rest : erase name es ≡ before ++ after
  pub earlier : lookup name before ≡ none
  pub found : lookup name es ≡ some num

pub lookup-cases :
    (name : List ℕ) (es : List (ℕ × List ℕ))
    → ((lookup name es ≡ none) × (erase name es ≡ es))
      ⊎ ((before : List (ℕ × List ℕ)) × (num : ℕ) × (after : List (ℕ × List ℕ)) × IsFirst name es
            before num after)
lookup-cases name [] = inl (refl, refl)
lookup-cases name ((num, entry_name) ∷ es) = elim (Bool-cases (str_eq entry_name name)) [
  | inl same ↦
      let e = str_eq→eq entry_name name same in
      inr
        ([], num, es, record { parts = rw e; rest = rw same; earlier = refl; found = rw same refl })
  | inr other ↦ elim (lookup-cases name es) [
    | inl (absent, same) ↦ inl (rw other absent, rw (other, same))
    | inr (before, num', after, first) ↦ inr (
      (num, entry_name) ∷ before,
      num',
      after,
      record {
        parts = ap (λ r. (num, entry_name) ∷ r) first.parts;
        rest = rw (other, first.rest);
        earlier = rw other first.earlier;
        found = rw other first.found;
      },
    )
  ]
]

pub HoldsEntries-move :
    (es : List (ℕ × List ℕ)) (b c : Bytes) (k j : ℕ)
    → HoldsEntries b k es
    → ((i : ℕ) → i < 128 * length es → c (j + i) ≡ b (k + i))
    → HoldsEntries c j es
unfolding load
HoldsEntries-move [] b c k j holds same = tt
HoldsEntries-move ((num, name) ∷ es) b c k j (h0, h1, holds) same = (
  load-ext 4 c b j k 0 (λ i hi. same i (omega arith)) ∙ h0,
  read_string-ext 71 c b (j + 4) (k + 4)
        (λ i hi. rw (shift j i, shift k i) (same (4 + i) (omega arith)))
      ∙ h1,
  HoldsEntries-move es b c (k + 128) (j + 128) holds
      (λ i hi. rw (far j i, far k i) (same (128 + i) (omega arith))),
)
  where
    shift : (p i : ℕ) → p + 4 + i ≡ p + (4 + i)
    shift p i = omega arith

    far : (p i : ℕ) → p + 128 + i ≡ p + (128 + i)
    far p i = omega arith

pub HoldsEntries-split :
    (xs ys : List (ℕ × List ℕ)) (b : Bytes) (k : ℕ)
    → HoldsEntries b k (xs ++ ys)
    → HoldsEntries b k xs × HoldsEntries b (k + 128 * length xs) ys
HoldsEntries-split [] ys b k holds = let e : k + 128 * 0 ≡ k = omega arith in (tt, rw e holds)
HoldsEntries-split ((num, name) ∷ xs) ys b k (h0, h1, holds) =
    let (first, second) = HoldsEntries-split xs ys b (k + 128) holds in
    let e : k + 128 * suc (length xs) ≡ k + 128 + 128 * length xs = omega arith in
    ((h0, h1, first), rw e second)

pub HoldsEntries-join :
    (xs ys : List (ℕ × List ℕ)) (b : Bytes) (k : ℕ)
    → HoldsEntries b k xs
    → HoldsEntries b (k + 128 * length xs) ys
    → HoldsEntries b k (xs ++ ys)
HoldsEntries-join [] ys b k holds second = let e : k + 128 * 0 ≡ k = omega arith in rw e at second
HoldsEntries-join ((num, name) ∷ xs) ys b k (h0, h1, holds) second =
    let e : k + 128 * suc (length xs) ≡ k + 128 + 128 * length xs = omega arith in
    (h0, h1, HoldsEntries-join xs ys b (k + 128) holds (rw e at second))

-- What stands behind a deleted entry moves up to its place.
pub HoldsEntries-close_gap :
    (before after : List (ℕ × List ℕ)) (e : ℕ × List ℕ) (b : Bytes)
    → 128 * length (before ++ (e ∷ after)) ≤ block_size
    → HoldsEntries b 0 (before ++ (e ∷ after))
    → HoldsEntries (close_gap (128 * length before) b) 0 (before ++ after)
unfolding close_gap
HoldsEntries-close_gap before after e b fits holds =
    let k = 128 * length before in
    let count = length-append before (e ∷ after) in
    let z : 0 + k ≡ k = omega arith in
    let (first, second) = HoldsEntries-split before (e ∷ after) b 0 holds in
    HoldsEntries-join before after (close_gap k b) 0
      (HoldsEntries-move before b (close_gap k b) 0 0 first (λ i hi.
        memcpy-outside b k b (k + 128) (block_size - (k + 128)) (0 + i) (inl (omega arith))))
      (rw z (
        HoldsEntries-move after b (close_gap k b) (k + 128) k (rw z at (behind_first e second))
          (λ i hi.
            memcpy-inside b k b (k + 128) (block_size - (k + 128)) i (omega (arith, count)))))
  where
    behind_first :
        (e : ℕ × List ℕ)
        → HoldsEntries b (0 + 128 * length before) (e ∷ after)
        → HoldsEntries b (0 + 128 * length before + 128) after
    behind_first (num, name) (h0, h1, h2) = h2
