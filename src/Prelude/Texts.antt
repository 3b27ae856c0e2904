-- ===== src/Prelude/Texts.antt =====
-- The order of texts: code point by code point, as Python's `<` on `str`.
use Prim.Native.Nat.{Ordering}
use Prim.Native.String.{String, compare}
use Prim.Native.String.compare
use mathlib.Core.Path.{◌≡◌, refl}
use mathlib.Core.Bool.{Bool, true, false, not}
use native.Mathlib.Omega.{arith}
use phone_law.Prelude.Tests.{◌==◌}

abbrev pub text_lt : String → String → Bool
text_lt s t = elim (compare s t) [ Ordering.lt ↦ true | _ ↦ false ]

abbrev flip : Ordering → Ordering
flip Ordering.lt = Ordering.gt
flip Ordering.eq = Ordering.eq
flip Ordering.gt = Ordering.lt

compare-flip : (s t : String) → compare t s ≡ flip (compare s t)
compare-flip String.[] String.[] = rw compare.nil-nil refl
compare-flip String.[] (String.◌∷◌ d t) = rw (compare.nil-cons d t, compare.cons-nil d t) refl
compare-flip (String.◌∷◌ c s) String.[] = rw (compare.nil-cons c s, compare.cons-nil c s) refl
compare-flip (String.◌∷◌ c s) (String.◌∷◌ d t) =
    rw (compare.cons-cons c d s t, compare.cons-cons d c t s) (ground (arith, compare-flip s t))

compare_trans :
    (s t u : String)
    → compare s t ≡ Ordering.lt
    → compare t u ≡ Ordering.lt
    → compare s u ≡ Ordering.lt
compare_trans String.[] String.[] u h k = let h' = rw compare.nil-nil at h in absurd (ground arith)
compare_trans String.[] (String.◌∷◌ d t) String.[] h k =
    let k' = rw (compare.cons-nil d t) at k in absurd (ground arith)
compare_trans String.[] (String.◌∷◌ d t) (String.◌∷◌ e u) h k = rw (compare.nil-cons e u) refl
compare_trans (String.◌∷◌ c s) String.[] u h k =
    let h' = rw (compare.cons-nil c s) at h in absurd (ground arith)
compare_trans (String.◌∷◌ c s) (String.◌∷◌ d t) String.[] h k =
    let k' = rw (compare.cons-nil d t) at k in absurd (ground arith)
compare_trans (String.◌∷◌ c s) (String.◌∷◌ d t) (String.◌∷◌ e u) h k =
    let h' = rw (compare.cons-cons c d s t) at h in
    let k' = rw (compare.cons-cons d e t u) at k in
    rw (compare.cons-cons c e s u) (ground (arith, compare_trans s t u))

-- Of two texts that differ one is before the other, and not both.
pub text_lt_total : (s t : String) → (s == t) ≡ false → text_lt t s ≡ not (text_lt s t)
text_lt_total s t h = ground (arith, compare-flip s t)

pub text_lt_irrefl : (s : String) → text_lt s s ≡ false
text_lt_irrefl s = ground (arith, compare-flip s s)

pub text_lt_trans : (s t u : String) → text_lt s t ≡ true → text_lt t u ≡ true → text_lt s u ≡ true
text_lt_trans s t u h k = ground (arith, compare_trans s t u)
