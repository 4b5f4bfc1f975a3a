-- ===== src/Forge/Naming/Tests.antt =====
-- Identifiers from texts that are none.
use specora_core.Prelude.{
  ℕ, String, ◌≡◌, refl, Bool, true, false, ◌&&◌, ◌||◌, eqb, leb, ◌==◌, eq_iff, ap, Bool-cases, inl,
  inr,
}
use Prim.Native.Char.{code}
use Prim.Native.String as Text
use text.Mathlib.TextLemmas.{cons-append}
use specora_core.Prelude.Texts.{append, push, every, rstrip}
use specora_core.Forge.Naming.{
  Lexicon, py_identifier, pluralize, pascal_case, camel_case, class_name, ends_with,
  concat_capitalized, pieces, no_keyword, no_digit, or_prefix, cleaned, sub_runs, strip_front,
  starts_with_digit,
}
use specora_core.Forge.Naming.Identifiers.{
  IsLexicon, IsStart, IsIdentifier, py_identifier-IsIdentifier,
}

unfoldable pub ascii_word : ℕ → Bool
ascii_word c =
    (leb b'A' c && leb c b'Z')
    || ((leb b'a' c && leb c b'z') || ((leb b'0' c && leb c b'9') || eqb c b'_'))

-- ASCII, and one keyword.
abbrev pub ascii : Lexicon
ascii = record {
  is_word = ascii_word;
  is_digit = λ c. leb b'0' c && leb c b'9';
  is_keyword = λ s. s == "class";
}

-- Whether the last character is "_"; the flag is about the character before the text.
ends_low : Bool → String → Bool
ends_low b Text.[] = b
ends_low b (Text.◌∷◌ c s) = ends_low (eqb (code c) b'_') s

ends_low-append : (b : Bool) (s : String) → ends_low b (append s "_") ≡ true
unfolding ends_low
ends_low-append b Text.[] = refl
ends_low-append b (Text.◌∷◌ c s) =
    rw (cons-append c s "_", ends_low) (ends_low-append (eqb (code c) b'_') s)

underscored_class : (s : String) → (append s "_" == "class") ≡ false
unfolding ends_low
underscored_class s = elim (Bool-cases (append s "_" == "class")) [
  | inl e ↦
      let same = (eq_iff (append s "_") "class").0 e in
      absurd (cc (ends_low-append false s, ap (ends_low false) same))
  | inr e ↦ e
]

ascii-IsLexicon : IsLexicon ascii
unfolding ascii_word
ascii-IsLexicon = record { underscore_word = refl; underscored = λ s n. underscored_class s }

x-IsStart : IsStart ascii "x"
unfolding ascii_word every starts_with_digit
x-IsStart = record {
  nonempty = λ h. absurd (cc ((eq_iff "x" "").1 h));
  words = refl;
  no_leading_digit = refl;
}

path_identifier : py_identifier ascii "/{id}/archive" "x" ≡ "id_archive"
unfolding py_identifier ascii_word no_keyword no_digit or_prefix cleaned sub_runs strip_front rstrip
    starts_with_digit
path_identifier = refl

digit_identifier : py_identifier ascii "2fa" "x" ≡ "x2fa"
unfolding py_identifier ascii_word no_keyword no_digit or_prefix cleaned sub_runs strip_front rstrip
    starts_with_digit
digit_identifier = refl

keyword_identifier : py_identifier ascii "class" "x" ≡ "class_"
unfolding py_identifier ascii_word no_keyword no_digit or_prefix cleaned sub_runs strip_front rstrip
    starts_with_digit
keyword_identifier = refl

plurals :
    (pluralize "category" ≡ "categories")
    × (pluralize "status" ≡ "statuses")
    × (pluralize "day" ≡ "days")
unfolding pluralize ends_with
plurals = (refl, refl, refl)

class_of_two_domains : class_name "account" "billing" true ≡ "BillingAccount"
unfolding class_name pascal_case concat_capitalized pieces push
class_of_two_domains = refl

camel : camel_case "api_key" ≡ "apiKey"
unfolding camel_case pascal_case concat_capitalized pieces push
camel = refl

py_identifier-IsIdentifier_example : IsIdentifier ascii (py_identifier ascii "/{id}/archive" "x")
py_identifier-IsIdentifier_example =
    py_identifier-IsIdentifier ascii ascii-IsLexicon "/{id}/archive" "x" x-IsStart
