-- ===== src/Healer/Security/Base64.antt =====
-- Stripping the padding of a base64 text and putting it back (`_b64e` and `_b64d` of
-- healer/security.py).
use Prim.Native.Nat.{◌%◌}
use Prim.Native.Char.{code}
use Prim.Native.String as Text
use specora_core.Prelude.{
  ℕ, zero, suc, ◌+◌, ◌-◌, ◌≤◌, String, ◌≡◌, refl, sym, ap, ◌∙◌, Bool, true, ◌&&◌, ◌||◌, some, List,
  arith, eqb, leb,
}
use text.Mathlib.TextLemmas.{nil-append, cons-append}
use specora_core.Prelude.Texts.{append, size, every, size-append, is_ascii, lacks, rstrip}
use specora_core.Healer.Security.{Codec, pads, b64e, b64d}

-- A letter, a digit, '-' or '_'.
unfoldable pub is_url_safe : ℕ → Bool
is_url_safe c =
    (leb b'A' c && leb c b'Z')
    || ((leb b'a' c && leb c b'z') || ((leb b'0' c && leb c b'9') || (eqb c b'-' || eqb c b'_')))

-- What base64 documents: an encoding is characters of the URL-safe alphabet and then at most two
-- '=', its length is a multiple of four, and it decodes to what was encoded.
pub record IsBase64 (C : Codec) : Type 0 where
  pub body : List ℕ → String
  pub padding : List ℕ → ℕ
  pub padding_bound : (raw : List ℕ) → padding raw ≤ 2
  pub encode_lem : (raw : List ℕ) → C.encode raw ≡ append (body raw) (pads (padding raw))
  pub alphabet : (raw : List ℕ) → every is_url_safe (body raw) ≡ true
  pub whole : (raw : List ℕ) → size (C.encode raw) % 4 ≡ 0
  pub inverse : (raw : List ℕ) → C.decode (C.encode raw) ≡ some raw

rstrip-pads : (n : ℕ) → rstrip b'=' (pads n) ≡ ""
unfolding rstrip pads
rstrip-pads zero = refl
rstrip-pads (suc n) = rw (rstrip-pads n) refl

size-pads : (n : ℕ) → size (pads n) ≡ n
unfolding size pads
size-pads zero = refl
size-pads (suc n) = omega (arith, size-pads n)

rstrip-append :
    (s : String) (n : ℕ) → every is_url_safe s ≡ true → rstrip b'=' (append s (pads n)) ≡ s
unfolding rstrip every is_url_safe
rstrip-append Text.[] n h = rw (nil-append (pads n)) (rstrip-pads n)
rstrip-append (Text.◌∷◌ c s) n h =
    rw (cons-append c s (pads n), rstrip, rstrip-append s n (ground (arith, h))) (ground (arith, h))

b64e-body : (C : Codec) (k : IsBase64 C) (raw : List ℕ) → b64e C raw ≡ k.body raw
unfolding b64e
b64e-body C k raw =
    rw (k.encode_lem raw) (rstrip-append (k.body raw) (k.padding raw) (k.alphabet raw))

missing_pads : (n p : ℕ) → p ≤ 2 → (n + p) % 4 ≡ 0 → (4 - n % 4) % 4 ≡ p
missing_pads n p h k = omega arith

whole_body :
    (C : Codec) (k : IsBase64 C) (raw : List ℕ) → (size (k.body raw) + k.padding raw) % 4 ≡ 0
whole_body C k raw = let h = rw (k.encode_lem raw, size-append, size-pads) at (k.whole raw) in h

pub b64d-b64e : (C : Codec) → IsBase64 C → (raw : List ℕ) → b64d C (b64e C raw) ≡ some raw
unfolding b64d
b64d-b64e C k raw =
    let again =
      ap (λ (n : ℕ). append (k.body raw) (pads n))
        (missing_pads (size (k.body raw)) (k.padding raw) (k.padding_bound raw)
          (whole_body C k raw)) in
    rw (b64e-body C k raw, b64d) (ap C.decode (again ∙ sym (k.encode_lem raw)) ∙ k.inverse raw)

every_mono :
    (p q : ℕ → Bool) (s : String)
    → ((c : ℕ) → p c ≡ true → q c ≡ true)
    → every p s ≡ true
    → every q s ≡ true
unfolding every
every_mono p q Text.[] m h = refl
every_mono p q (Text.◌∷◌ c s) m h = ground (arith, h, m (code c), every_mono p q s m)

pub b64e-is_ascii : (C : Codec) → IsBase64 C → (raw : List ℕ) → is_ascii (b64e C raw) ≡ true
unfolding is_url_safe
b64e-is_ascii C k raw =
    rw (b64e-body C k raw)
      (every_mono is_url_safe _ (k.body raw) (λ c h. ground (arith, h)) (k.alphabet raw))

pub b64e-lacks : (C : Codec) → IsBase64 C → (raw : List ℕ) → lacks b'.' (b64e C raw) ≡ true
unfolding is_url_safe
b64e-lacks C k raw =
    rw (b64e-body C k raw)
      (every_mono is_url_safe _ (k.body raw) (λ c h. ground (arith, h)) (k.alphabet raw))
