-- ===== src/Forge/Naming.antt =====
-- Generated identifiers (forge/targets/naming.py). What Python takes from the Unicode tables and
-- its list of keywords is the record `Lexicon`.
pub mod Identifiers
pub mod Tests
use Prim.Native.Char.{Char, code}
use Prim.Native.String as Text
use specora_core.Prelude.{
  ℕ, String, Bool, true, false, ◌&&◌, ◌||◌, Option, none, some, List, [], ◌∷◌, ◌==◌, eqb, leb, ltb,
  if◌then◌else◌, not, select,
}
use specora_core.Prelude.Texts.{append, push, rstrip}

pub record Lexicon : Type 0 where
  -- a character that `\w` matches, and one that `str.isdigit` accepts
  pub is_word : ℕ → Bool
  pub is_digit : ℕ → Bool
  -- keyword.iskeyword(text) or keyword.issoftkeyword(text)
  pub is_keyword : String → Bool

-- [A-Za-z0-9]
is_alnum : ℕ → Bool
is_alnum c =
    (leb b'A' c && leb c b'Z') || ((leb b'a' c && leb c b'z') || (leb b'0' c && leb c b'9'))

-- The pieces between the characters that fail the test.
unfoldable pub pieces : (ℕ → Bool) → String → List String
pieces p Text.[] = "" ∷ []
pieces p (Text.◌∷◌ c s) = let rest = pieces p s in if p (code c) then push c rest else "" ∷ rest

-- The character at the same place of the second alphabet.
counterpart : String → String → Char → Char
counterpart (Text.◌∷◌ a s) (Text.◌∷◌ b t) c =
    let rest = counterpart s t c in if eqb (code a) (code c) then b else rest
counterpart _ _ c = c

-- p[:1].upper() + p[1:] of an ASCII text
upper_first : String → String
unfolding counterpart
upper_first Text.[] = ""
upper_first (Text.◌∷◌ c s) =
    Text.◌∷◌ (counterpart "abcdefghijklmnopqrstuvwxyz" "ABCDEFGHIJKLMNOPQRSTUVWXYZ" c) s

-- stem[:1].lower() + stem[1:] of an ASCII text
lower_first : String → String
unfolding counterpart
lower_first Text.[] = ""
lower_first (Text.◌∷◌ c s) =
    Text.◌∷◌ (counterpart "ABCDEFGHIJKLMNOPQRSTUVWXYZ" "abcdefghijklmnopqrstuvwxyz" c) s

unfoldable pub concat_capitalized : List String → String
unfolding upper_first
concat_capitalized [] = ""
concat_capitalized (p ∷ ps) = append (upper_first p) (concat_capitalized ps)

unfoldable pub pascal_case : String → String
unfolding pieces is_alnum
pascal_case name = concat_capitalized (select (λ p. not (p == "")) (pieces is_alnum name))

unfoldable pub camel_case : String → String
unfolding lower_first
camel_case name = lower_first (pascal_case name)

-- re.sub of every run of characters that fail the test by "_"; the flag says that one is under way.
unfoldable pub sub_runs : (ℕ → Bool) → Bool → String → String
sub_runs p inside Text.[] = ""
sub_runs p inside (Text.◌∷◌ c s) =
    let kept = sub_runs p false s in
    let rest = sub_runs p true s in
    if p (code c) then Text.◌∷◌ c kept else if inside then rest else Text.◌∷◌ "_" rest

abbrev pub is_underscore : ℕ → Bool
is_underscore c = eqb c b'_'

unfoldable pub strip_front : String → String
strip_front Text.[] = ""
strip_front (Text.◌∷◌ c s) =
    let rest = strip_front s in if is_underscore (code c) then rest else Text.◌∷◌ c s

unfoldable pub cleaned : Lexicon → String → String
cleaned L raw =
    sub_runs (λ c. not (is_underscore c)) false
      (rstrip b'_' (strip_front (sub_runs L.is_word false raw)))

unfoldable pub starts_with_digit : Lexicon → String → Bool
starts_with_digit L Text.[] = false
starts_with_digit L (Text.◌∷◌ c s) = L.is_digit (code c)

unfoldable pub or_prefix : String → String → String
or_prefix prefix s = if s == "" then prefix else s

unfoldable pub no_digit : Lexicon → String → String → String
no_digit L prefix s = if starts_with_digit L s then append prefix s else s

unfoldable pub no_keyword : Lexicon → String → String
no_keyword L s = if L.is_keyword s then append s "_" else s

-- An empty prefix and an empty rest is an IndexError, which no caller can meet.
unfoldable pub py_identifier : Lexicon → String → String → String
py_identifier L raw prefix = no_keyword L (no_digit L prefix (or_prefix prefix (cleaned L raw)))

unfoldable pub ends_with : String → String → Bool
ends_with suffix Text.[] = suffix == ""
ends_with suffix (Text.◌∷◌ c s) = Text.◌∷◌ c s == suffix || ends_with suffix s

-- name[:-1]
drop_last : String → String
drop_last Text.[] = ""
drop_last (Text.◌∷◌ c Text.[]) = ""
drop_last (Text.◌∷◌ c (Text.◌∷◌ d s)) = Text.◌∷◌ c (drop_last (Text.◌∷◌ d s))

-- len(name) > 1 and name[-2] not in "aeiou"
after_consonant : String → Bool
after_consonant Text.[] = false
after_consonant (Text.◌∷◌ c Text.[]) = false
after_consonant (Text.◌∷◌ c (Text.◌∷◌ d Text.[])) = not (
    eqb (code c) b'a'
    || (eqb (code c) b'e' || (eqb (code c) b'i' || (eqb (code c) b'o' || eqb (code c) b'u'))))
after_consonant (Text.◌∷◌ c (Text.◌∷◌ d (Text.◌∷◌ e s))) =
    after_consonant (Text.◌∷◌ d (Text.◌∷◌ e s))

unfoldable pub pluralize : String → String
unfolding after_consonant drop_last
pluralize name =
    if ends_with "y" name && after_consonant name
    then append (drop_last name) "ies"
    else if ends_with "s" name
        || (ends_with "sh" name
            || (ends_with "ch" name || (ends_with "x" name || ends_with "z" name)))
    then append name "es"
    else append name "s"

unfoldable pub class_name : String → String → Bool → String
class_name name domain multi =
    if multi then append (pascal_case domain) (pascal_case name) else pascal_case name

unfoldable pub table_name : String → String → Bool → String
table_name name domain multi =
    if multi then append domain (append "_" (pluralize name)) else pluralize name

unfoldable pub module_slug : Lexicon → String → String → Bool → String
module_slug L name domain multi =
    let stem = py_identifier L name "x" in if multi then append domain (append "_" stem) else stem

unfoldable pub repo_accessor : Lexicon → String → String → Bool → String
repo_accessor L name domain multi = append "get_" (append (module_slug L name domain multi) "_repo")

-- name.replace("\"", "\"\"")
unfoldable pub double_marks : String → String
double_marks Text.[] = ""
double_marks (Text.◌∷◌ c s) =
    let rest = double_marks s in
    if eqb (code c) b'"' then Text.◌∷◌ c (Text.◌∷◌ c rest) else Text.◌∷◌ c rest

-- `none` is the ValueError; the length is that of the UTF-8 encoding.
unfoldable pub sql_ident : String → Option String
sql_ident name =
    if name == "" || ltb 63 (Text.len name)
    then none
    else some (append "\"" (append (double_marks name) "\""))
