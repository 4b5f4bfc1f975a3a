-- ===== src/Healer/Classifier.antt =====
-- Error classification (healer/analyzer/classifier.py). A pattern is a list of literal pieces with
-- `.*` between them; case-insensitive patterns fold case as Python's `re` does for ASCII letters.
use Prim.Native.Char.{code}
use Prim.Native.String as Text
use specora_core.Prelude.{
  ℕ, ◌+◌, String, Bool, true, false, ◌&&◌, ◌||◌, Option, none, some, List, [], ◌∷◌, ◌==◌, eqb, leb,
  if◌then◌else◌,
}
use specora_core.Json.{pos, negsuc, Value, bool, int, Fields, get_or}
use specora_core.Healer.Models.{Priority, critical, high, medium}

pub record Classification : Type 0 where
  pub error_type : String
  pub tier : ℕ
  pub priority : Priority
  pub fixable_by : String

-- str.lower() on the letters that the searched texts use
pub lower : ℕ → ℕ
lower c = if leb b'A' c && leb c b'Z' then c + 32 else c

-- re.IGNORECASE: long s, dotless and dotted i, and the Kelvin sign match ASCII letters.
pub fold_case : ℕ → ℕ
unfolding lower
fold_case c =
    if eqb c 0x17f
    then b's'
    else if eqb c 0x131 || eqb c 0x130
    then b'i'
    else if eqb c 0x212a
    then b'k'
    else lower c

same_case : ℕ → ℕ
same_case c = c

-- The text behind a literal piece at the head of a text.
behind : (ℕ → ℕ) → String → String → Option String
behind f Text.[] s = some s
behind f (Text.◌∷◌ c p) Text.[] = none
behind f (Text.◌∷◌ c p) (Text.◌∷◌ d s) =
    if eqb (f (code c)) (f (code d)) then behind f p s else none

-- The piece stands in the text's first line: what `.*` may skip.
in_line : (ℕ → ℕ) → String → String → Bool
unfolding behind
in_line f p Text.[] = elim (behind f p Text.[]) [ none ↦ false | some _ ↦ true ]
in_line f p (Text.◌∷◌ c s) = elim (behind f p (Text.◌∷◌ c s)) [
  | none ↦ if eqb (code c) 10 then false else in_line f p s
  | some _ ↦ true
]

pub data Pattern : Type 0 where
  piece : String → Pattern
  gap : String → String → Pattern

matches_here : (ℕ → ℕ) → Pattern → String → Bool
unfolding behind in_line
matches_here f (piece p) s = elim (behind f p s) [ none ↦ false | some _ ↦ true ]
matches_here f (gap p q) s = elim (behind f p s) [ none ↦ false | some rest ↦ in_line f q rest ]

-- pattern.search(text)
unfoldable pub search_pattern : (ℕ → ℕ) → Pattern → String → Bool
unfolding matches_here
search_pattern f p Text.[] = matches_here f p Text.[]
search_pattern f p (Text.◌∷◌ c s) = matches_here f p (Text.◌∷◌ c s) || search_pattern f p s

pub search_any : (ℕ → ℕ) → List Pattern → String → Bool
unfolding search_pattern
search_any f [] s = false
search_any f (p ∷ ps) s = search_pattern f p s || search_any f ps s

abbrev pub tier1_patterns : List (String × String)
tier1_patterns =
    ("does not match '^[a-z][a-z0-9_]*$'", "naming")
    ∷ ("does not match '^(entity|workflow", "fqn_format")
    ∷ ("does not match '^[A-Z][A-Z0-9_]*$'", "graph_edge")
    ∷ ("does not match '^[A-Z]{2,6}$'", "number_prefix")
    ∷ []

abbrev pub tier2_patterns : List (String × String)
tier2_patterns =
    ("is a required property", "missing_field")
    ∷ ("is not valid under any of the given schemas", "schema_mismatch")
    ∷ ("is not one of", "invalid_enum")
    ∷ []

pub first_type : List (String × String) → String → Option String
unfolding search_pattern same_case
first_type [] msg = none
first_type ((p, t) ∷ ps) msg =
    if search_pattern same_case (piece p) msg then some t else first_type ps msg

unfoldable pub classify_validation_error : String → Classification
unfolding first_type
classify_validation_error msg = elim (first_type tier1_patterns msg) [
  | some t ↦ record { error_type = t; tier = 1; priority = high; fixable_by = "contract" }
  | none ↦ elim (first_type tier2_patterns msg) [
    | some t ↦ record { error_type = t; tier = 2; priority = high; fixable_by = "contract" }
    | none ↦ record {
      error_type = "structural";
      tier = 2;
      priority = medium;
      fixable_by = "contract";
    }
  ]
]

abbrev pub generator_bug_patterns : List Pattern
generator_bug_patterns =
    piece "invalid UUID"
    ∷ piece "invalid input for query argument"
    ∷ gap "column " " does not exist"
    ∷ gap "relation " " does not exist"
    ∷ piece "syntax error at or near"
    ∷ piece "ImportError"
    ∷ piece "ModuleNotFoundError"
    ∷ gap "NameError: name " " is not defined"
    ∷ piece "AttributeError"
    ∷ []

abbrev pub data_issue_patterns : List Pattern
data_issue_patterns =
    piece "duplicate key value violates unique constraint"
    ∷ gap "foreign key" "violates"
    ∷ gap "null value in column " " violates not-null"
    ∷ piece "value too long for type"
    ∷ piece "connection refused"
    ∷ piece "connection reset"
    ∷ piece "timeout"
    ∷ []

unfoldable pub infer_fixable_by : String → String
unfolding search_any fold_case
infer_fixable_by error =
    if search_any fold_case generator_bug_patterns error
    then "generator"
    else if search_any fold_case data_issue_patterns error
    then "data"
    else "contract"

-- status >= 500; a value that does not compare with an int raises. (So does a float here, which
-- the source would compare.)
pub at_least_500 : Value → Option Bool
at_least_500 (int (pos n)) = some (leb 500 n)
at_least_500 (int (negsuc n)) = some false
at_least_500 (bool b) = some false
at_least_500 _ = none

unfoldable pub runtime_error : String → Option Bool → Option Classification
runtime_error fixable none = none
runtime_error fixable (some true) =
    some
      (record { error_type = "runtime_500"; tier = 3; priority = critical; fixable_by = fixable })
runtime_error fixable (some false) =
    some
      (record { error_type = "runtime_exception"; tier = 3; priority = high; fixable_by = fixable })

abbrev pub compile_error : String → Priority → Classification
compile_error t p = record { error_type = t; tier = 2; priority = p; fixable_by = "contract" }

unfoldable pub classify_raw_error : String → String → Fields → Option Classification
unfolding infer_fixable_by at_least_500 runtime_error search_pattern lower
classify_raw_error source error context =
    if source == "runtime"
    then runtime_error (infer_fixable_by error)
        (at_least_500 (get_or "status_code" (int (pos 0)) context))
    else if source == "compilation"
    then (if search_pattern lower (piece "unresolved reference") error
        then some (compile_error "missing_reference" high)
        else if search_pattern lower (piece "cycle") error
        then some (compile_error "dependency_cycle" critical)
        else some (compile_error "compilation_error" high))
    else some
        (record { error_type = "unknown"; tier = 2; priority = medium; fixable_by = "unknown" })
