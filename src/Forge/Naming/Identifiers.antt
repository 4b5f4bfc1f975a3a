-- ===== src/Forge/Naming/Identifiers.antt =====
-- What `py_identifier` guarantees (forge/targets/naming.py).
use Prim.Native.Char.{code}
use Prim.Native.String as Text
use specora_core.Prelude.{
  ℕ, String, ◌≡◌, ◌≢◌, refl, Bool, true, false, ◌&&◌, inl, inr, Bool-cases, arith, ◌==◌, eq_iff,
}
use text.Mathlib.TextLemmas.{cons-append, cons-ne-nil}
use specora_core.Prelude.Texts.{append, every, every-append, rstrip}
use specora_core.Forge.Naming.{
  Lexicon, sub_runs, is_underscore, strip_front, cleaned, starts_with_digit, or_prefix, no_digit,
  no_keyword, py_identifier,
}

-- What Python documents: "_" is a word character and no digit, and no keyword is another text with
-- "_" behind it.
pub record IsLexicon (L : Lexicon) : Type 0 where
  pub underscore_word : L.is_word b'_' ≡ true
  pub underscored : (s : String) → s ≢ "" → L.is_keyword (append s "_") ≡ false

-- A text of word characters that starts with no digit.
pub record IsStart (L : Lexicon) (s : String) : Type 0 where
  pub nonempty : s ≢ ""
  pub words : every L.is_word s ≡ true
  pub no_leading_digit : starts_with_digit L s ≡ false

pub record IsIdentifier (L : Lexicon) (s : String) : Type 0 where
  pub start : IsStart L s
  pub no_keyword : L.is_keyword s ≡ false

module _ (L : Lexicon) (k : IsLexicon L) where
  replaced : (inside : Bool) (s : String) → every L.is_word (sub_runs L.is_word inside s) ≡ true
  unfolding sub_runs every
  replaced inside Text.[] = refl
  replaced inside (Text.◌∷◌ c s) =
      ground (arith, k.underscore_word, replaced false s, replaced true s)

  squeezed :
      (p : ℕ → Bool) (inside : Bool) (s : String)
      → every L.is_word s ≡ true
      → every L.is_word (sub_runs p inside s) ≡ true
  unfolding sub_runs every
  squeezed p inside Text.[] h = refl
  squeezed p inside (Text.◌∷◌ c s) h =
      ground (arith, h, k.underscore_word, squeezed p false s, squeezed p true s)

  every-strip_front :
      (s : String) → every L.is_word s ≡ true → every L.is_word (strip_front s) ≡ true
  unfolding strip_front every
  every-strip_front Text.[] h = refl
  every-strip_front (Text.◌∷◌ c s) h = ground (arith, h, every-strip_front s)

  every-rstrip : (s : String) → every L.is_word s ≡ true → every L.is_word (rstrip b'_' s) ≡ true
  unfolding rstrip every
  every-rstrip Text.[] h = refl
  every-rstrip (Text.◌∷◌ c s) h =
      elim (Bool-cases (is_underscore (code c) && rstrip b'_' s == "")) [
        | inl e ↦ rw e refl
        | inr e ↦ rw e (ground (arith, h, every-rstrip s))
      ]

  every-cleaned : (raw : String) → every L.is_word (cleaned L raw) ≡ true
  unfolding cleaned
  every-cleaned raw = squeezed _ false _ (every-rstrip _ (every-strip_front _ (replaced false raw)))

  digit-append : (s t : String) → s ≢ "" → starts_with_digit L (append s t) ≡ starts_with_digit L s
  unfolding starts_with_digit
  digit-append Text.[] t n = absurd (n refl)
  digit-append (Text.◌∷◌ c s) t n = rw (cons-append c s t, starts_with_digit) refl

  append_nonempty : (s t : String) → s ≢ "" → append s t ≢ ""
  append_nonempty Text.[] t n h = n refl
  append_nonempty (Text.◌∷◌ c s) t n h = cons-ne-nil c (append s t) (rw (cons-append c s t) at h)

  prefixed :
      (prefix s : String)
      → IsStart L prefix
      → s ≢ ""
      → every L.is_word s ≡ true
      → IsStart L (no_digit L prefix s)
  unfolding no_digit
  prefixed prefix s p n h = elim (Bool-cases (starts_with_digit L s)) [
    | inl e ↦ rw e (record {
      nonempty = append_nonempty prefix s p.nonempty;
      words = rw (every-append L.is_word prefix s, p.words, h) refl;
      no_leading_digit = rw (digit-append prefix s p.nonempty) p.no_leading_digit;
    })
    | inr e ↦ rw e (record { nonempty = n; words = h; no_leading_digit = e })
  ]

  unreserved : (s : String) → IsStart L s → IsIdentifier L (no_keyword L s)
  unfolding no_keyword every
  unreserved s p = elim (Bool-cases (L.is_keyword s)) [
    | inl e ↦ rw e (record {
      start = record {
        nonempty = append_nonempty s "_" p.nonempty;
        words = rw (every-append L.is_word s "_", p.words, k.underscore_word) refl;
        no_leading_digit = rw (digit-append s "_" p.nonempty) p.no_leading_digit;
      };
      no_keyword = k.underscored s p.nonempty;
    })
    | inr e ↦ rw e (record { start = p; no_keyword = e })
  ]

  -- Whatever the text, `py_identifier` returns a text that is not empty, has word characters only,
  -- does not start with a digit and is no keyword. The prefix is itself not empty, of word characters
  -- and without a leading digit, and the character tables are Python's in what the record says.
  pub py_identifier-IsIdentifier :
      (raw prefix : String) → IsStart L prefix → IsIdentifier L (py_identifier L raw prefix)
  unfolding py_identifier or_prefix
  py_identifier-IsIdentifier raw prefix p = elim (Bool-cases (cleaned L raw == "")) [
    | inl e ↦ rw e (unreserved _ (prefixed prefix prefix p p.nonempty p.words))
    | inr e ↦ rw e (
        unreserved _ (
          prefixed prefix (cleaned L raw) p (λ h. absurd (cc (e, (eq_iff (cleaned L raw) "").1 h)))
            (every-cleaned raw)))
  ]
