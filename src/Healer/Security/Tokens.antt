-- ===== src/Healer/Security/Tokens.antt =====
-- What `_issue` mints and `_verify` accepts (healer/security.py).
pub mod Issued
use Prim.Native.Char.{code}
use Prim.Native.String as Text
use specora_core.Prelude.{
  ℕ, ◌+◌, ◌≤◌, ◌<◌, String, ◌≡◌, ◌↔◌, refl, sym, ◌∙◌, ap, subst, Bool, true, false, ◌&&◌, ◌||◌,
  Option, none, some, some-injective, List, [], ◌∷◌, arith, eqb, leb, not, ◌==◌, eq_iff, eq_refl,
  Bool-cases, inl, inr,
}
use text.Mathlib.TextLemmas.{append_assoc, nil-append, cons-append}
use specora_core.Prelude.Options.{Option-cases}
use specora_core.Prelude.Results.{
  Result, ok, raised, http_error, crash, ◌>>=◌, Result-cases, bind-eq-ok, ok-injective, guard-ok,
  guard_not-ok,
}
use specora_core.Prelude.Texts.{
  append, is_ascii, lacks, every, Lacking, split_by-Lacking, split_by, join_by, join_by-split_by,
  split_by-append, split_by-lacks,
}
use specora_core.Json.{ℤ, pos, Value, str, int, obj, arr, float, bool, null, Fields, get}
use specora_core.Healer.Security.{
  Codec, b64e, b64d, sign, compare_digest, later, has_expired, claims_of, issue, says, is_text,
  expiry, check_expiry, as_claims, verify_parts, check_claims, decoded, read_claims, verify,
}
use specora_core.Healer.Security.Base64.{IsBase64, b64d-b64e, b64e-is_ascii, b64e-lacks}

-- A token of three pieces.
unfoldable pub token_of : String → String → String
token_of payload signature = append (append "shv1." payload) (append "." signature)

-- The claims that a token carries permit the use: they name it, and they have not expired.
pub record Permits (C : Codec) (typ ticket_id action : String) (now : ℕ) (claims : Fields)
    : Type 0 where
  pub typ_lem : get "typ" claims ≡ some (str typ)
  pub tid_lem : get "tid" claims ≡ some (str ticket_id)
  pub act_lem : get "act" claims ≡ some (str action)
  pub exp : ℤ
  pub exp_lem : expiry C claims ≡ some exp
  pub alive : has_expired exp now ≡ false

-- A token is genuine for a use: it is spelled from a payload and the payload's signature under the
-- secret, and the payload encodes claims that permit the use.
pub record IsGenuine (C : Codec) (token typ ticket_id action secret : String) (now : ℕ)
    (claims : Fields) : Type 0 where
  pub payload : String
  pub spelling : token ≡ token_of payload (sign C secret (append "shv1." payload))
  pub undotted : lacks b'.' payload ≡ true
  pub encodes : decoded C payload ≡ some (obj claims)
  pub permits : Permits C typ ticket_id action now claims

check_expiry-ok :
    (o : Option ℤ) (now : ℕ) (claims d : Fields)
    → check_expiry o now claims ≡ ok d
    → (exp : ℤ) × (o ≡ some exp) × (has_expired exp now ≡ false) × (claims ≡ d)
unfolding check_expiry
check_expiry-ok none now claims d h = absurd (cc h)
check_expiry-ok (some exp) now claims d h =
    let (e, f) = guard_not-ok (has_expired exp now) _ _ h in (exp, refl, e, ok-injective claims d f)

is_text-eq : (t : String) (o : Option Value) → is_text t o ≡ true → o ≡ some (str t)
unfolding is_text
is_text-eq t none h = cc
is_text-eq t (some (str s)) h = ap (λ (x : String). some (str x)) ((eq_iff s t).0 h)
is_text-eq t (some (obj d)) h = cc
is_text-eq t (some (arr vs)) h = cc
is_text-eq t (some (float s)) h = cc
is_text-eq t (some (int n)) h = cc
is_text-eq t (some (bool b)) h = cc
is_text-eq t (some null) h = cc

says_lem : (k t : String) (d : Fields) → get k d ≡ some (str t) → says k t d ≡ true
unfolding says is_text
says_lem k t d h = rw h (eq_refl t)

check_claims-Permits :
    (C : Codec) (typ tid act : String) (now : ℕ) (claims d : Fields)
    → check_claims C typ tid act now claims ≡ ok d
    → (claims ≡ d) × Permits C typ tid act now claims
unfolding check_claims says
check_claims-Permits C typ tid act now claims d h =
    let (a, h) = guard-ok (says "typ" typ claims) _ _ h in
    let (b, h) = guard-ok (says "tid" tid claims) _ _ h in
    let (c, h) = guard-ok (says "act" act claims) _ _ h in
    let (exp, e, f, g) = check_expiry-ok (expiry C claims) now claims d h in
    (
      g,
      record {
        typ_lem = is_text-eq typ (get "typ" claims) a;
        tid_lem = is_text-eq tid (get "tid" claims) b;
        act_lem = is_text-eq act (get "act" claims) c;
        exp = exp;
        exp_lem = e;
        alive = f;
      },
    )

Permits-check_claims :
    (C : Codec) (typ tid act : String) (now : ℕ) (claims : Fields)
    → Permits C typ tid act now claims
    → check_claims C typ tid act now claims ≡ ok claims
unfolding check_claims check_expiry
Permits-check_claims C typ tid act now claims p =
    rw
      (
        says_lem "typ" typ claims p.typ_lem,
        says_lem "tid" tid claims p.tid_lem,
        says_lem "act" act claims p.act_lem,
        p.exp_lem,
        p.alive,
      )
      refl

as_claims-obj : (o : Option Value) (d : Fields) → as_claims o ≡ ok d → o ≡ some (obj d)
unfolding as_claims
as_claims-obj none d h = cc
as_claims-obj (some (obj e)) d h = ap (λ (x : Fields). some (obj x)) (ok-injective e d h)
as_claims-obj (some (str s)) d h = cc
as_claims-obj (some (arr vs)) d h = cc
as_claims-obj (some (float s)) d h = cc
as_claims-obj (some (int n)) d h = cc
as_claims-obj (some (bool b)) d h = cc
as_claims-obj (some null) d h = cc

dotted : (p : String) → append "shv1" (append "." p) ≡ append "shv1." p
dotted p = sym (append_assoc "shv1" "." p)

pub compare_digest-eq : (a b : String) → compare_digest a b ≡ ok true → a ≡ b
unfolding compare_digest
compare_digest-eq a b h = elim (Bool-cases (is_ascii a && is_ascii b)) [
  | inl e ↦ (eq_iff a b).0 (ok-injective (a == b) true (rw (e, compare_digest) at h))
  | inr e ↦ absurd (cc (rw (e, compare_digest) at h))
]

-- The pieces that are accepted.
pub three_parts :
    (C : Codec) (parts : List String) (typ tid act secret : String) (now : ℕ) (d : Fields)
    → verify_parts C parts typ tid act secret now ≡ ok d
    → (payload : String) × (parts ≡ "shv1" ∷ payload ∷ sign C secret (append "shv1." payload) ∷ [])
      × (decoded C payload ≡ some (obj d))
      × Permits C typ tid act now d
unfolding verify_parts read_claims
three_parts C [] typ tid act secret now d h = absurd (cc h)
three_parts C (a ∷ []) typ tid act secret now d h = absurd (cc h)
three_parts C (a ∷ b ∷ []) typ tid act secret now d h = absurd (cc h)
three_parts C (a ∷ b ∷ c ∷ e ∷ ps) typ tid act secret now d h = absurd (cc h)
three_parts C (version ∷ payload ∷ signature ∷ []) typ tid act secret now d h =
    let (u, h) = guard-ok (version == "shv1") _ _ h in
    let v = (eq_iff version "shv1").0 u in
    let (same, e, h) =
      bind-eq-ok (compare_digest (sign C secret (append version (append "." payload))) signature) _
        h in
    let (f, h) = guard-ok same _ _ h in
    let (claims, g, h) = bind-eq-ok (read_claims C payload) _ h in
    let (j, p) = check_claims-Permits C typ tid act now claims d h in
    let message = ap (λ (x : String). append x (append "." payload)) v ∙ dotted payload in
    let signed =
      sym (
        compare_digest-eq (sign C secret (append version (append "." payload))) signature
          (e ∙ ap ok f))
      ∙ ap (sign C secret) message in
    (
      payload,
      cc (v, signed),
      as_claims-obj (decoded C payload) d (g ∙ ap ok j),
      subst (Permits C typ tid act now) j p,
    )

token-join : (p s : String) → join_by "." ("shv1" ∷ p ∷ s ∷ []) ≡ token_of p s
unfolding join_by token_of
token-join p s = rw (sym (append_assoc "." p (append "." s))) (
    sym (append_assoc "shv1" (append "." p) (append "." s))
    ∙ ap (λ (x : String). append x (append "." s)) (dotted p))

dot : (s : String) → append "." s ≡ Text.◌∷◌ "." s
dot s = cons-append "." "" s ∙ ap (λ (x : String). Text.◌∷◌ "." x) (nil-append s)

token-pieces :
    (p s : String) → token_of p s ≡ append "shv1" (Text.◌∷◌ "." (append p (Text.◌∷◌ "." s)))
unfolding join_by
token-pieces p s =
    sym (token-join p s)
    ∙ ap (append "shv1") (dot (append p (append "." s)))
    ∙ ap (λ (x : String). append "shv1" (Text.◌∷◌ "." (append p x))) (dot s)

pub token_of-parts :
    (p s : String)
    → lacks b'.' p ≡ true
    → lacks b'.' s ≡ true
    → split_by b'.' (token_of p s) ≡ "shv1" ∷ p ∷ s ∷ []
unfolding every
token_of-parts p s h k =
    rw
      (
        token-pieces p s,
        split_by-append "." "shv1" (append p (Text.◌∷◌ "." s)) refl,
        split_by-append "." p s h,
        split_by-lacks b'.' s k,
      )
      refl

compare_digest-same : (a : String) → is_ascii a ≡ true → compare_digest a a ≡ ok true
unfolding compare_digest
compare_digest-same a h = rw (h, eq_refl a) refl

pub parts_pass :
    (C : Codec) (payload typ tid act secret : String) (now : ℕ) (d : Fields)
    → IsBase64 C
    → decoded C payload ≡ some (obj d)
    → Permits C typ tid act now d
    → verify_parts C
        ("shv1" ∷ payload ∷ sign C secret (append "shv1." payload) ∷ [])
        typ
        tid
        act
        secret
        now
      ≡ ok d
unfolding verify_parts read_claims as_claims sign
parts_pass C payload typ tid act secret now d k h p =
    rw
      (
        dotted payload,
        compare_digest-same (sign C secret (append "shv1." payload))
            (b64e-is_ascii C k (C.digest secret (append "shv1." payload))),
        h,
      )
      (Permits-check_claims C typ tid act now d p)

pub sign-lacks :
    (C : Codec) (secret message : String) → IsBase64 C → lacks b'.' (sign C secret message) ≡ true
unfolding sign
sign-lacks C secret message k = b64e-lacks C k (C.digest secret message)

-- `_verify` returns claims for exactly the tokens that are genuine for the use under the secret; for
-- every other token it raises. The codec is base64's.
pub verify-IsGenuine :
    (C : Codec) (token typ ticket_id action secret : String) (now : ℕ) (claims : Fields)
    → IsBase64 C
    → (verify C token typ ticket_id action secret now ≡ ok claims)
      ↔ IsGenuine C token typ ticket_id action secret now claims
unfolding verify
verify-IsGenuine C token typ tid act secret now claims k = (
  λ h.
      let (payload, e, f, g) =
        three_parts C (split_by b'.' token) typ tid act secret now claims h in
      record {
        payload = payload;
        spelling =
            sym (join_by-split_by "." token)
            ∙ ap (join_by ".") e
            ∙ token-join payload (sign C secret (append "shv1." payload));
        undotted = (subst (Lacking b'.') e (split_by-Lacking b'.' token)).1.0;
        encodes = f;
        permits = g;
      },
  λ g.
      let signature = sign C secret (append "shv1." g.payload) in
      ap (λ (t : String). verify_parts C (split_by b'.' t) typ tid act secret now) g.spelling
      ∙ ap (λ (ps : List String). verify_parts C ps typ tid act secret now)
          (token_of-parts g.payload signature g.undotted
            (sign-lacks C secret (append "shv1." g.payload) k))
      ∙ parts_pass C g.payload typ tid act secret now claims k g.encodes g.permits,
)
