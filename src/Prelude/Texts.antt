-- ===== src/Prelude/Texts.antt =====
-- Texts by character: lengths, `s.split(c)` for one character, and ASCII.
use Prim.Native.Char.{Char, code}
use Prim.Native.Nat.{ℕ, zero, suc, ◌+◌}
use Prim.Native.String as Text
use Prim.Native.String.{String}
use mathlib.Core.Path.{◌≡◌, refl, ◌∙◌, ap, sym}
use mathlib.Core.Logic.{inl, inr}
use mathlib.Core.Bool.{Bool, true, false, ◌&&◌}
use mathlib.Core.List.{List, [], ◌∷◌}
use native.Mathlib.Omega.{arith}
use text.Mathlib.TextLemmas.{nil-append, cons-append}
use text.Mathlib.Text.{◌==◌}
use text.Mathlib.TextEquality.{Char-path}
use specora_core.Prelude.Lists.{All}
use specora_core.Prelude.Tests.{eqb→eq, if◌then◌else◌, eqb, ltb, not, Bool-cases}

abbrev pub append : String → String → String
append s t = Text.◌++◌ s t

-- len(text)
unfoldable pub size : String → ℕ
size Text.[] = 0
size (Text.◌∷◌ c s) = suc (size s)

unfoldable pub every : (ℕ → Bool) → String → Bool
every p Text.[] = true
every p (Text.◌∷◌ c s) = p (code c) && every p s

-- text.isascii()
abbrev pub is_ascii : String → Bool
is_ascii s = every (λ c. ltb c 128) s

abbrev pub lacks : ℕ → String → Bool
lacks sep s = every (λ c. not (eqb c sep)) s

unfoldable pub push : Char → List String → List String
push c [] = Text.◌∷◌ c "" ∷ []
push c (p ∷ ps) = Text.◌∷◌ c p ∷ ps

-- text.split(sep)
unfoldable pub split_by : ℕ → String → List String
split_by sep Text.[] = "" ∷ []
split_by sep (Text.◌∷◌ c s) =
    let rest = split_by sep s in if eqb (code c) sep then "" ∷ rest else push c rest

-- text.rstrip(c)
unfoldable pub rstrip : ℕ → String → String
rstrip sep Text.[] = ""
rstrip sep (Text.◌∷◌ c s) =
    let rest = rstrip sep s in if eqb (code c) sep && rest == "" then "" else Text.◌∷◌ c rest

-- sep.join(parts)
unfoldable pub join_by : String → List String → String
join_by sep [] = ""
join_by sep (p ∷ []) = p
join_by sep (p ∷ q ∷ ps) = append p (append sep (join_by sep (q ∷ ps)))

pub every-append : (p : ℕ → Bool) (s t : String) → every p (append s t) ≡ (every p s && every p t)
unfolding every
every-append p Text.[] t = rw (nil-append t) refl
every-append p (Text.◌∷◌ c s) t = rw (cons-append c s t, every) (ground (arith, every-append p s t))

pub size-append : (s t : String) → size (append s t) ≡ size s + size t
unfolding size
size-append Text.[] t = rw (nil-append t) (omega arith)
size-append (Text.◌∷◌ c s) t = rw (cons-append c s t, size) (omega (arith, size-append s t))

-- A piece without the separator, then the separator.
pub split_by-append :
    (d : Char) (p t : String)
    → lacks (code d) p ≡ true
    → split_by (code d) (append p (Text.◌∷◌ d t)) ≡ p ∷ split_by (code d) t
unfolding every split_by push
split_by-append d Text.[] t h = rw (nil-append (Text.◌∷◌ d t), split_by) (ground arith)
split_by-append d (Text.◌∷◌ c p) t h =
    rw (cons-append c p (Text.◌∷◌ d t), split_by, split_by-append d p t (ground (arith, h)))
      (ground (arith, h))

pub split_by-lacks : (sep : ℕ) (t : String) → lacks sep t ≡ true → split_by sep t ≡ t ∷ []
unfolding every split_by push
split_by-lacks sep Text.[] h = refl
split_by-lacks sep (Text.◌∷◌ c t) h =
    rw (split_by-lacks sep t (ground (arith, h))) (ground (arith, h))

join_by-push :
    (sep : String) (c : Char) (ps : List String)
    → join_by sep (push c ps) ≡ Text.◌∷◌ c (join_by sep ps)
unfolding join_by push
join_by-push sep c [] = refl
join_by-push sep c (p ∷ []) = refl
join_by-push sep c (p ∷ q ∷ ps) = cons-append c p (append sep (join_by sep (q ∷ ps)))

split_by-starts :
    (sep : ℕ) (s : String) → (p : String) × (ps : List String) × (split_by sep s ≡ p ∷ ps)
unfolding split_by push
split_by-starts sep Text.[] = ("", [], refl)
split_by-starts sep (Text.◌∷◌ c s) =
    let (p, ps, e) = split_by-starts sep s in
    elim (Bool-cases (eqb (code c) sep)) [
      | inl h ↦ ("", split_by sep s, rw h refl)
      | inr h ↦ (Text.◌∷◌ c p, ps, rw (h, e) refl)
    ]

join_by-blank :
    (d : Char) (parts : List String) (p : String) (ps : List String)
    → parts ≡ p ∷ ps
    → join_by (Text.◌∷◌ d "") ("" ∷ parts) ≡ Text.◌∷◌ d (join_by (Text.◌∷◌ d "") parts)
unfolding join_by
join_by-blank d parts p ps e =
    rw
      (
        e,
        nil-append (append (Text.◌∷◌ d "") (join_by (Text.◌∷◌ d "") (p ∷ ps))),
        cons-append d "" (join_by (Text.◌∷◌ d "") (p ∷ ps)),
        nil-append (join_by (Text.◌∷◌ d "") (p ∷ ps)),
      )
      refl

-- Splitting loses nothing.
pub join_by-split_by : (d : Char) (s : String) → join_by (Text.◌∷◌ d "") (split_by (code d) s) ≡ s
unfolding split_by join_by
join_by-split_by d Text.[] = refl
join_by-split_by d (Text.◌∷◌ c s) = elim (Bool-cases (eqb (code c) (code d))) [
  | inl h ↦
      let (p, ps, e) = split_by-starts (code d) s in
      rw h (
        join_by-blank d (split_by (code d) s) p ps e
        ∙ ap (λ (t : String). Text.◌∷◌ d t) (join_by-split_by d s)
        ∙ ap (λ (b : Char). Text.◌∷◌ b s) (sym (Char-path c d (eqb→eq (code c) (code d) h))))
  | inr h ↦ rw (h, join_by-push (Text.◌∷◌ d "") c (split_by (code d) s), join_by-split_by d s) refl
]

-- text.startswith(prefix)
unfoldable pub starts_with : String → String → Bool
starts_with Text.[] t = true
starts_with (Text.◌∷◌ c s) Text.[] = false
starts_with (Text.◌∷◌ c s) (Text.◌∷◌ d t) = eqb (code c) (code d) && starts_with s t

abbrev pub Lacking : ℕ → List String → Type 0
Lacking sep ps = All (λ p. lacks sep p ≡ true) ps

Lacking-push :
    (sep : ℕ) (c : Char) (ps : List String)
    → eqb (code c) sep ≡ false
    → Lacking sep ps
    → Lacking sep (push c ps)
unfolding push every
Lacking-push sep c [] h k = (ground (arith, h), tt)
Lacking-push sep c (p ∷ ps) h k = (ground (arith, h, k.0), k.1)

pub split_by-Lacking : (sep : ℕ) (s : String) → Lacking sep (split_by sep s)
unfolding split_by every
split_by-Lacking sep Text.[] = (refl, tt)
split_by-Lacking sep (Text.◌∷◌ c s) = elim (Bool-cases (eqb (code c) sep)) [
  | inl h ↦ rw h (refl, split_by-Lacking sep s)
  | inr h ↦ rw h (Lacking-push sep c (split_by sep s) h (split_by-Lacking sep s))
]

-- An f-string of these parts.
unfoldable pub texts : List String → String
texts [] = ""
texts (s ∷ ss) = append s (texts ss)

-- The decimal digit behind another one.
next_digit : ℕ → Char
next_digit d =
    if eqb d b'0'
    then "1"
    else if eqb d b'1'
    then "2"
    else if eqb d b'2'
    then "3"
    else if eqb d b'3'
    then "4"
    else if eqb d b'4'
    then "5"
    else if eqb d b'5'
    then "6"
    else if eqb d b'6'
    then "7"
    else if eqb d b'7'
    then "8"
    else "9"

-- One more than a decimal number, and whether a 1 is to be put in front.
increment : String → Bool × String
unfolding next_digit
increment Text.[] = (true, "")
increment (Text.◌∷◌ d s) =
    let (carry, t) = increment s in
    if not carry
    then (false, Text.◌∷◌ d t)
    else if eqb (code d) b'9'
    then (true, Text.◌∷◌ "0" t)
    else (false, Text.◌∷◌ (next_digit (code d)) t)

-- str(n)
pub numeral : ℕ → String
unfolding increment
numeral zero = "0"
numeral (suc n) = let (carry, t) = increment (numeral n) in if carry then Text.◌∷◌ "1" t else t

numeral_110 : numeral 110 ≡ "110"
unfolding numeral
numeral_110 = refl
