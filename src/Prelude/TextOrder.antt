-- ===== src/Prelude/TextOrder.antt =====
-- The order of texts by code points is a total preorder: what `ORDER BY` and `heapq` rely on.
use Prim.Native.Nat.{compare as compare_ℕ, Ordering}
use Prim.Native.Char.{Char, code}
use Prim.Native.String.{String, [], ◌∷◌, compare as compare_text, then as lexicographic}
use Prim.Native.String.compare
use mathlib.Core.Path.{◌≡◌, refl}
use mathlib.Core.Bool.{true, false}
use native.Mathlib.Omega.{arith}
use specora_core.Prelude.Tests.{text_lt, if◌then◌else◌, ltb, eqb}

compare-cons :
    (c d : Char) (s t : String)
    → compare_text (c ∷ s) (d ∷ t) ≡ lexicographic (compare_ℕ (code c) (code d)) (compare_text s t)
compare-cons c d s t = λ i. compare.cons-cons c d s t i

compare_nil-cons : (d : Char) (t : String) → compare_text [] (d ∷ t) ≡ Ordering.lt
compare_nil-cons d t = λ i. compare.nil-cons d t i

compare_cons-nil : (c : Char) (s : String) → compare_text (c ∷ s) [] ≡ Ordering.gt
compare_cons-nil c s = λ i. compare.cons-nil c s i

text_lt-cons :
    (c d : Char) (s t : String)
    → text_lt (c ∷ s) (d ∷ t) ≡ (
        if ltb (code c) (code d)
        then true
        else if eqb (code c) (code d)
        then text_lt s t
        else false)
text_lt-cons c d s t = ground (arith, compare-cons c d s t)

text_lt-nil_cons : (d : Char) (t : String) → text_lt [] (d ∷ t) ≡ true
text_lt-nil_cons d t = ground (arith, compare_nil-cons d t)

text_lt-nil : (s : String) → text_lt s [] ≡ false
text_lt-nil [] = refl
text_lt-nil (c ∷ s) = ground (arith, compare_cons-nil c s)

-- If `b` is not behind `a` and `c` not behind `b`, then `c` is not behind `a`.
pub text_le_trans :
    (a b c : String) → text_lt a b ≡ false → text_lt b c ≡ false → text_lt a c ≡ false
text_le_trans a b [] h k = text_lt-nil a
text_le_trans a [] (z ∷ c) h k = absurd (cc (k, text_lt-nil_cons z c))
text_le_trans [] (y ∷ b) (z ∷ c) h k = absurd (cc (h, text_lt-nil_cons y b))
text_le_trans (x ∷ a) (y ∷ b) (z ∷ c) h k =
    ground
      (arith, text_lt-cons x y a b, text_lt-cons y z b c, text_lt-cons x z a c, text_le_trans a b c)

pub text_lt_asym : (a b : String) → text_lt a b ≡ true → text_lt b a ≡ false
text_lt_asym a [] h = cc (h, text_lt-nil a)
text_lt_asym [] (y ∷ b) h = text_lt-nil (y ∷ b)
text_lt_asym (x ∷ a) (y ∷ b) h =
    ground (arith, text_lt-cons x y a b, text_lt-cons y x b a, text_lt_asym a b)
