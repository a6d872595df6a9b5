-- ===== src/Prelude/Pieces.antt =====
-- The methods of `str` on a text that is put together from pieces.
use Prim.Native.Nat.{ℕ}
use Prim.Native.Char.{Char, code}
use Prim.Native.String.{String, [], ◌∷◌, ◌++◌}
use mathlib.Core.Path.{◌≡◌, refl, ap}
use mathlib.Core.Bool.{true, false}
use mathlib.Core.Option.{some}
use native.Mathlib.Omega.{arith}
use text.Mathlib.TextLemmas.{cons-append, nil-append}
use ansible_install.Prelude.Branch.{eqb}
use ansible_install.Prelude.Text.{◌==◌, cons-nonempty, ≡→eq, strip_prefix, ends_with, has, cut}

pub strip_prefix-append : (t r : String) → strip_prefix (t ++ r) t ≡ some r
unfolding strip_prefix
strip_prefix-append [] r = ap some (nil-append r)
strip_prefix-append (c ∷ t) r = rw (cons-append c t r) (ground (arith, strip_prefix-append t r))

ends_with_self : (t : String) → ends_with t t ≡ true
unfolding ends_with
ends_with_self [] = ≡→eq [] [] refl
ends_with_self (c ∷ t) = rw (≡→eq (c ∷ t) (c ∷ t) refl) refl

pub ends_with-append : (x t : String) → ends_with (x ++ t) t ≡ true
unfolding ends_with
ends_with-append [] t = rw (nil-append t) (ends_with_self t)
ends_with-append (c ∷ x) t = rw (cons-append c x t) (ground (arith, ends_with-append x t))

pub has-append : (k : ℕ) (s t : String) → has k s ≡ false → has k t ≡ false → has k (s ++ t) ≡ false
unfolding has
has-append k [] t h e = rw (nil-append t) e
has-append k (c ∷ s) t h e =
    rw (cons-append c s t) (ground (arith, has-append k s t (ground arith) e))

-- The first `sep` is the one behind a text that has none.
pub cut-append :
    (sep : ℕ) (c : Char) (n w : String)
    → eqb (code c) sep ≡ true
    → has sep n ≡ false
    → cut sep (n ++ (c ∷ w)) ≡ some (n, w)
unfolding cut has
cut-append sep c [] w e h = rw (nil-append (c ∷ w)) (rw e refl)
cut-append sep c (d ∷ n) w e h =
    rw (cons-append d n (c ∷ w)) (ground (arith, cut-append sep c n w e (ground arith)))

pub left-nonempty : (b d : String) → (b == "") ≡ false → ((b ++ d) == "") ≡ false
left-nonempty [] d h = absurd (ground (arith, ≡→eq "" "" refl))
left-nonempty (c ∷ b) d h = rw (cons-append c b d) (cons-nonempty c (b ++ d))
