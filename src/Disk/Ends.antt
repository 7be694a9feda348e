-- ===== src/Disk/Ends.antt =====
-- Runs that end, as a predicate that is put together from the parts of a command.
use linuse_fs.Base.{
  ℕ, ◌≡◌, refl, ◌≢◌, subst, Bool, true, false, Option, none, some, if◌then◌else◌, ltb,
}
use linuse_fs.Memory.{Bytes}
use linuse_fs.Disk.{
  Fs, Run, ok, exited, fault, out_of_fuel, Cmd, crash, and_then, lift, read_block, write_block,
  total_blocks,
}

-- The run ends, and what it returns has the property.
abbrev pub Post : {A : Type 0} → (A → Type 0) → Run A → Type 0
Post P (ok a s) = P a
Post P (exited s) = Unit
Post P fault = Unit
Post P out_of_fuel = ⊥

abbrev pub Ends : {A : Type 0} → Run A → Type 0
Ends = Post (λ _. Unit)

pub Post-and_then :
    {A B : Type 0} (P : A → Type 0) (Q : B → Type 0) (r : Run A) (k : A → Cmd B)
    → Post P r
    → ((a : A) (s : Fs) → P a → Post Q (k a s))
    → Post Q (and_then r k)
Post-and_then P Q (ok a s) k first rest = rest a s first
Post-and_then P Q (exited s) k first rest = tt
Post-and_then P Q fault k first rest = tt
Post-and_then P Q out_of_fuel k first rest = absurd first

-- What comes behind a run that ends.
pub Post-after :
    {A B : Type 0} (Q : B → Type 0) (r : Run A) (k : A → Cmd B)
    → Ends r
    → ((a : A) (s : Fs) → Post Q (k a s))
    → Post Q (and_then r k)
Post-after Q r k first rest = Post-and_then (λ _. Unit) Q r k first λ a s h. rest a s

-- A command under a test.
pub Post-if :
    {A : Type 0} (Q : A → Type 0) (c : Bool) (x y : Cmd A) (s : Fs)
    → (c ≡ true → Post Q (x s))
    → (c ≡ false → Post Q (y s))
    → Post Q ((if c then x else y) s)
Post-if Q true x y s hx hy = hx refl
Post-if Q false x y s hx hy = hy refl

-- Where a missing value is a fault.
pub Post-crash :
    {A B : Type 0} (Q : B → Type 0) (o : Option A) (k : A → Cmd B) (s : Fs)
    → ((a : A) → Post Q (k a s))
    → Post Q ((elim o as (λ _. Cmd B) [ none ↦ crash | some a ↦ k a ]) s)
Post-crash Q none k s h = tt
Post-crash Q (some a) k s h = h a

pub lift-Ends : {A : Type 0} (o : Option A) (s : Fs) → Ends (lift o s)
unfolding lift
lift-Ends none s = tt
lift-Ends (some a) s = tt

pub Ends-out_of_fuel : {A : Type 0} (r : Run A) → Ends r → r ≢ out_of_fuel
Ends-out_of_fuel r h e = subst Ends e h

pub if-Ends : {A : Type 0} (c : Bool) (x y : Run A) → Ends x → Ends y → Ends (if c then x else y)
if-Ends true x y hx hy = hx
if-Ends false x y hx hy = hy

pub read_block-Ends : (b : ℕ) (s : Fs) → Ends (read_block b s)
unfolding read_block
read_block-Ends b s = if-Ends (ltb b total_blocks) _ _ tt tt

pub write_block-Ends : (b : ℕ) (f : Bytes → Bytes) (s : Fs) → Ends (write_block b f s)
unfolding write_block
write_block-Ends b f s = if-Ends (ltb b total_blocks) _ _ tt tt

-- The laws that take a command apart.
pub ruleset ends = (Post-after, Post-if, if-Ends, Post-crash, read_block-Ends, write_block-Ends)
