-- ===== src/Base/Slices.antt =====
-- The length of a prefix that `slice` takes.
use Prim.Native.Nat.{ℕ, zero, ◌-◌, ◌≤◌, compare, Ordering}
use Prim.Native.Char.{Char, len_utf8}
use Prim.Native.String.len
use Prim.Native.String.slice
use Prim.Native.String.{String, [], ◌∷◌, len, slice, fits}
use mathlib.Core.Path.{◌≡◌, refl}
use native.Mathlib.Omega.{arith}

fits-bounded :
    (o : Ordering) (c : Char) (r : String) (k : ℕ)
    → compare (len_utf8 c) k ≡ o
    → len r ≤ k - len_utf8 c
    → len (fits o c r) ≤ k
fits-bounded Ordering.lt c r k e h = ground (arith, len.cons c r, e, h)
fits-bounded Ordering.eq c r k e h = ground (arith, len.cons c r, e, h)
fits-bounded Ordering.gt c r k e h = rw len.nil (omega arith)

pub len-slice : (s : String) (k : ℕ) → len (slice s zero k) ≤ k
len-slice [] k = rw (slice.nil zero k, len.nil) (omega arith)
len-slice (c ∷ s) k =
    rw (slice.cons-zero c s k)
      (fits-bounded _ c (slice s zero (k - len_utf8 c)) k refl (len-slice s (k - len_utf8 c)))
