-- ===== src/Disk/Runs.antt =====
-- Laws of the commands, for every way in which a run ends.
use linuse_fs.Base.{◌≡◌, refl}
use linuse_fs.Disk.{Fs, Run, ok, exited, fault, out_of_fuel, Cmd, and_then}

-- Commands are composed in any grouping.
pub and_then_assoc :
    {A B C : Type 0} (r : Run A) (k : A → Cmd B) (l : B → Cmd C)
    → and_then (and_then r k) l ≡ and_then r (λ a s. and_then (k a s) l)
and_then_assoc (ok a s) k l = refl
and_then_assoc (exited s) k l = refl
and_then_assoc fault k l = refl
and_then_assoc out_of_fuel k l = refl

-- A run is read with a function that gives the same on every value that it returns.
pub and_then_ext :
    {A B : Type 0} (r : Run A) (k l : A → Cmd B)
    → ((a : A) (s : Fs) → k a s ≡ l a s)
    → and_then r k ≡ and_then r l
and_then_ext (ok a s) k l same = same a s
and_then_ext (exited s) k l same = refl
and_then_ext fault k l same = refl
and_then_ext out_of_fuel k l same = refl
