-- ===== src/Disk/Keeps.antt =====
-- Runs that keep a property of the bitmap, as a predicate that is put together from the parts of a
-- command.
use linuse_fs.Base.{ℕ, Bool, true, false, Option, none, some, if◌then◌else◌, ltb}
use linuse_fs.Memory.{Bytes}
use linuse_fs.Platform.{BitArray}
use linuse_fs.Disk.{
  Fs, Run, ok, exited, fault, out_of_fuel, Cmd, crash, and_then, read_block, write_block,
  total_blocks, lift,
}

-- The bitmap has the property at the end of a run that returns or exits.
abbrev pub Keeps : {A : Type 0} → (BitArray → Type 0) → Run A → Type 0
Keeps b (ok a s) = b s.bitmap
Keeps b (exited s) = b s.bitmap
Keeps b fault = Unit
Keeps b out_of_fuel = Unit

pub Keeps-and_then :
    {A B : Type 0} (b : BitArray → Type 0) (r : Run A) (k : A → Cmd B)
    → Keeps b r
    → ((a : A) (s : Fs) → b s.bitmap → Keeps b (k a s))
    → Keeps b (and_then r k)
Keeps-and_then b (ok a s) k first rest = rest a s first
Keeps-and_then b (exited s) k first rest = first
Keeps-and_then b fault k first rest = tt
Keeps-and_then b out_of_fuel k first rest = tt

pub Keeps-if :
    {A : Type 0} (b : BitArray → Type 0) (c : Bool) (x y : Cmd A) (s : Fs)
    → Keeps b (x s)
    → Keeps b (y s)
    → Keeps b ((if c then x else y) s)
Keeps-if b true x y s hx hy = hx
Keeps-if b false x y s hx hy = hy

pub if-Keeps :
    {A : Type 0} (b : BitArray → Type 0) (c : Bool) (x y : Run A)
    → Keeps b x
    → Keeps b y
    → Keeps b (if c then x else y)
if-Keeps b true x y hx hy = hx
if-Keeps b false x y hx hy = hy

pub Keeps-crash :
    {A B : Type 0} (b : BitArray → Type 0) (o : Option A) (k : A → Cmd B) (s : Fs)
    → ((a : A) → Keeps b (k a s))
    → Keeps b ((elim o as (λ _. Cmd B) [ none ↦ crash | some a ↦ k a ]) s)
Keeps-crash b none k s h = tt
Keeps-crash b (some a) k s h = h a

pub lift-Keeps :
    {A : Type 0} (b : BitArray → Type 0) (o : Option A) (s : Fs) → b s.bitmap → Keeps b (lift o s)
unfolding lift
lift-Keeps b none s h = tt
lift-Keeps b (some a) s h = h

pub read_block-Keeps :
    (b : BitArray → Type 0) (n : ℕ) (s : Fs) → b s.bitmap → Keeps b (read_block n s)
unfolding read_block
read_block-Keeps b n s h = if-Keeps b (ltb n total_blocks) _ _ h tt

pub write_block-Keeps :
    (b : BitArray → Type 0) (n : ℕ) (f : Bytes → Bytes) (s : Fs)
    → b s.bitmap
    → Keeps b (write_block n f s)
unfolding write_block
write_block-Keeps b n f s h = if-Keeps b (ltb n total_blocks) _ _ h tt

-- The laws that take a command apart.
pub ruleset keeps =
    (Keeps-and_then, Keeps-if, if-Keeps, Keeps-crash, read_block-Keeps, write_block-Keeps)
