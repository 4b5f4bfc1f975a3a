-- ===== src/Forge/Migrations/Literals.antt =====
-- A text default is quoted safely (`sql_literal` of forge/targets/naming.py).
use Prim.Native.Char.{Char, code}
use Prim.Native.String as Text
use specora_core.Prelude.{
  String, ◌≡◌, refl, ◌∙◌, ap, Bool, true, false, Option, none, some, eqb, if◌then◌else◌, Bool-cases,
  inl, inr,
}
use text.Mathlib.TextLemmas.{append_assoc, nil-append, cons-append}
use specora_core.Prelude.Options.{◌>>=◌}
use specora_core.Json.{str}
use specora_core.Forge.Migrations.{Printing, append, double_quotes, sql_literal}

-- SQL's reading of a text literal behind its opening quote: a doubled quote is a quote, a single one
-- ends the literal. The text and what follows the literal.
unfoldable pub read_rest : String → Option (String × String)
read_rest Text.[] = none
read_rest (Text.◌∷◌ c Text.[]) = if eqb (code c) b'\'' then some ("", "") else none
read_rest (Text.◌∷◌ c (Text.◌∷◌ d s)) =
    let doubled = read_rest s in
    let plain = read_rest (Text.◌∷◌ d s) in
    if eqb (code c) b'\''
    then (if eqb (code d) b'\''
        then (do (t, after) ← doubled; some (Text.◌∷◌ c t, after))
        else some ("", Text.◌∷◌ d s))
    else (do (t, after) ← plain; some (Text.◌∷◌ c t, after))

unfoldable pub read_literal : String → Option (String × String)
unfolding read_rest
read_literal Text.[] = none
read_literal (Text.◌∷◌ c s) = if eqb (code c) b'\'' then read_rest s else none

unfoldable pub starts_with_quote : String → Bool
starts_with_quote Text.[] = false
starts_with_quote (Text.◌∷◌ c s) = eqb (code c) b'\''

plain_step :
    (c : Char) (s : String)
    → eqb (code c) b'\'' ≡ false
    → read_rest (Text.◌∷◌ c s) ≡ (read_rest s >>= λ r. some (Text.◌∷◌ c r.0, r.1))
unfolding read_rest
plain_step c Text.[] h = rw h refl
plain_step c (Text.◌∷◌ d s) h = rw h refl

quote_step :
    (c : Char) (s : String)
    → eqb (code c) b'\'' ≡ true
    → read_rest (Text.◌∷◌ c (Text.◌∷◌ c s)) ≡ (read_rest s >>= λ r. some (Text.◌∷◌ c r.0, r.1))
unfolding read_rest
quote_step c s h = rw h refl

quote_append : (t : String) → append "'" t ≡ Text.◌∷◌ "'" t
quote_append t = cons-append "'" "" t ∙ ap (λ (u : String). Text.◌∷◌ "'" u) (nil-append t)

read_quote :
    (tail : String)
    → starts_with_quote tail ≡ false
    → read_rest (Text.◌∷◌ "'" tail) ≡ some ("", tail)
unfolding read_rest starts_with_quote
read_quote Text.[] h = refl
read_quote (Text.◌∷◌ d s) h = rw h refl

read_doubled :
    (s tail : String)
    → starts_with_quote tail ≡ false
    → read_rest (append (double_quotes s) (append "'" tail)) ≡ some (s, tail)
unfolding double_quotes
read_doubled Text.[] tail h =
    ap read_rest (nil-append (append "'" tail) ∙ quote_append tail) ∙ read_quote tail h
read_doubled (Text.◌∷◌ c s) tail h =
    let dq = double_quotes s in
    let rest = append "'" tail in
    elim (Bool-cases (eqb (code c) b'\'')) [
      | inl e ↦ rw e (
          ap read_rest (
            cons-append c (Text.◌∷◌ c dq) rest
            ∙ ap (λ (u : String). Text.◌∷◌ c u) (cons-append c dq rest))
          ∙ quote_step c (append dq rest) e
          ∙ rw (read_doubled s tail h) refl)
      | inr e ↦ rw e (
          ap read_rest (cons-append c dq rest)
          ∙ plain_step c (append dq rest) e
          ∙ rw (read_doubled s tail h) refl)
    ]

-- Whatever a text default holds, SQL reads its literal back as that very text and ends the literal
-- where it ends: nothing of the text is read as SQL. What follows is not a quote.
pub read_literal-sql_literal :
    (P : Printing) (s tail : String)
    → starts_with_quote tail ≡ false
    → read_literal (append (sql_literal P (str s)) tail) ≡ some (s, tail)
unfolding read_literal sql_literal
read_literal-sql_literal P s tail h =
    ap read_literal (
      append_assoc "'" (append (double_quotes s) "'") tail
      ∙ quote_append (append (append (double_quotes s) "'") tail)
      ∙ ap (λ (u : String). Text.◌∷◌ "'" u) (append_assoc (double_quotes s) "'" tail))
    ∙ read_doubled s tail h
