-- ===== src/Healer/Security/Tests.antt =====
-- The credentials on a codec that is easy to compute with: a number is written in unary by
-- groups of four letters, and two sets of claims are known.
use Prim.Native.Nat.{◌%◌}
use Prim.Native.Char.{code}
use Prim.Native.String as Text
use specora_core.Prelude.{
  ℕ, zero, suc, ◌+◌, ◌<◌, String, ◌≡◌, ◌↔◌, refl, sym, ◌∙◌, ap, true, Option, none, some, List, [],
  ◌∷◌, arith, eqb, if◌then◌else◌, Dict, put, lookup,
}
use text.Mathlib.TextLemmas.{append-nil}
use specora_core.Prelude.Results.{ok, raised, http_error}
use specora_core.Prelude.Texts.{size, every, split_by, push, starts_with, rstrip}
use specora_core.Json.{ℤ, pos, Value, str, int, obj, Fields, get}
use specora_core.Healer.Security.{
  Codec, pads, says, is_text, Credentials, claims_of, issue, verify, verify_parts, b64e, sign,
  compare_digest, read_claims, as_claims, decoded, b64d, check_claims, check_expiry, expiry,
  has_expired, later, text_at, either,
}
use specora_core.Healer.Security.Base64.{IsBase64, is_url_safe}
use specora_core.Healer.Security.Tokens.{IsGenuine, verify-IsGenuine}
use specora_core.Healer.Security.Tokens.Issued.{IsJson, verify-issue}
use specora_core.Healer.Security.Planes.{
  shipped, operator_actor, authorize_control_plane, ask_chain, build_control_plane_chain,
  register_control_plane_authenticator, if_set, try_chain, operator_token, looks_like_signed_token,
  or_else,
}
use specora_core.Healer.Security.Planes.Chain.{IsBacked, authorize_control_plane-IsBacked}

unfoldable pub unary : ℕ → String → String
unary zero t = Text.◌∷◌ "B" (Text.◌∷◌ "B" (Text.◌∷◌ "B" (Text.◌∷◌ "B" t)))
unary (suc n) t = Text.◌∷◌ "A" (Text.◌∷◌ "A" (Text.◌∷◌ "A" (Text.◌∷◌ "A" (unary n t))))

unfoldable pub write : List ℕ → String
unfolding unary
write [] = ""
write (n ∷ ns) = unary n (write ns)

unfoldable pub read_from : ℕ → String → List ℕ
read_from n (Text.◌∷◌ a (Text.◌∷◌ b (Text.◌∷◌ c (Text.◌∷◌ d s)))) =
    let more = read_from (suc n) s in
    let next = read_from 0 s in if eqb (code a) b'A' then more else n ∷ next
read_from n _ = []

abbrev first_claims : Fields
first_claims = claims_of "action" "t1" "approve" (pos 100) "n1" "ann"

abbrev second_claims : Fields
second_claims = claims_of "action" "t2" "reject" (pos 100) "n2" ""

abbrev pub known : List ℕ → Option Value
known (n ∷ []) =
    if eqb n 1 then some (obj first_claims) else if eqb n 2 then some (obj second_claims) else none
known _ = none

abbrev number_of : Value → Option ℤ
number_of (int n) = some n
number_of _ = none

abbrev text_of : Value → String
text_of (str s) = s
text_of _ = ""

abbrev pub unary_codec : Codec
unary_codec = record {
  encode = write;
  decode = λ s. some (read_from 0 s);
  digest = λ secret message. size secret ∷ [];
  dumps = λ claims. if says "nonce" "n1" claims then 1 ∷ [] else 2 ∷ [];
  loads = known;
  int_of = number_of;
  read_int = λ s. none;
  str_of = text_of;
  lower = λ s. s;
  strip = λ s. s;
}

read_from-unary : (n m : ℕ) (t : String) → read_from m (unary n t) ≡ (m + n) ∷ read_from 0 t
unfolding read_from unary
read_from-unary zero m t = ap (λ (k : ℕ). k ∷ read_from 0 t) (omega arith)
read_from-unary (suc n) m t =
    read_from-unary n (suc m) t ∙ ap (λ (k : ℕ). k ∷ read_from 0 t) (omega arith)

zero_add : (n : ℕ) → 0 + n ≡ n
zero_add n = omega arith

read_from-write : (ns : List ℕ) → read_from 0 (write ns) ≡ ns
unfolding write read_from
read_from-write [] = refl
read_from-write (n ∷ ns) =
    read_from-unary n 0 (write ns)
    ∙ ap (λ (k : ℕ). k ∷ read_from 0 (write ns)) (zero_add n)
    ∙ ap (λ (l : List ℕ). n ∷ l) (read_from-write ns)

every-unary :
    (n : ℕ) (t : String) → every is_url_safe t ≡ true → every is_url_safe (unary n t) ≡ true
unfolding every unary is_url_safe
every-unary zero t h = h
every-unary (suc n) t h = every-unary n t h

every-write : (ns : List ℕ) → every is_url_safe (write ns) ≡ true
unfolding write every
every-write [] = refl
every-write (n ∷ ns) = every-unary n (write ns) (every-write ns)

size-unary : (n : ℕ) (t : String) → size t % 4 ≡ 0 → size (unary n t) % 4 ≡ 0
unfolding size unary
size-unary zero t h = omega (arith, h)
size-unary (suc n) t h = omega (arith, size-unary n t h)

size-write : (ns : List ℕ) → size (write ns) % 4 ≡ 0
unfolding write size
size-write [] = refl
size-write (n ∷ ns) = size-unary n (write ns) (size-write ns)

unary_codec-IsBase64 : IsBase64 unary_codec
unfolding pads
unary_codec-IsBase64 = record {
  body = write;
  padding = λ ns. 0;
  padding_bound = λ ns. omega arith;
  encode_lem = λ ns. sym (append-nil (write ns));
  alphabet = every-write;
  whole = size-write;
  inverse = λ ns. ap some (read_from-write ns);
}

first_claims-IsJson : IsJson unary_codec first_claims
unfolding says is_text get claims_of
first_claims-IsJson = record {
  read = first_claims;
  loads_lem = refl;
  get_lem = λ key. refl;
  int_lem = λ n. refl;
}

-- The link that the first claims make, for the secret "key".
abbrev pub first_link : String
first_link = issue unary_codec "action" "t1" "approve" "key" (pos 60) "ann" "n1" 40

abbrev pub second_link : String
second_link = issue unary_codec "action" "t2" "reject" "key" (pos 60) "" "n2" 40

first_link_works : verify unary_codec first_link "action" "t1" "approve" "key" 50 ≡ ok first_claims
unfolding verify verify_parts split_by issue b64e rstrip write says get claims_of sign size push
    compare_digest every read_claims as_claims decoded unary b64d check_claims check_expiry expiry
    has_expired is_text later pads read_from
first_link_works = refl

verify-IsGenuine_example :
    (verify unary_codec first_link "action" "t1" "approve" "key" 50 ≡ ok first_claims)
    ↔ IsGenuine unary_codec first_link "action" "t1" "approve" "key" 50 first_claims
verify-IsGenuine_example =
    verify-IsGenuine unary_codec first_link "action" "t1" "approve" "key" 50 first_claims
      unary_codec-IsBase64

verify-issue_example :
    ((d : Fields) × (verify unary_codec
          (issue unary_codec "action" "t1" "approve" "key" (pos 60) "ann" "n1" 40)
          "action"
          "t1"
          "reject"
          "key"
          50
        ≡ ok d)
      × (get "nonce" d ≡ some (str "n1")))
    ↔ ((◌≡◌ {A = String} "action" "action")
        × (◌≡◌ {A = String} "t1" "t1")
        × (◌≡◌ {A = String} "approve" "reject")
        × (50 < 40 + 60))
verify-issue_example =
    verify-issue unary_codec unary_codec-IsBase64 "action" "t1" "approve" "key" "ann" "n1" 60 40 50
      first_claims-IsJson "action" "t1" "reject"

abbrev operator_env : Dict String
operator_env = ("SPECORA_HEALER_OPERATOR_TOKEN", "op") ∷ []

abbrev operator_request : Credentials
operator_request = record { bearer = "op"; query_token = ""; form_token = ""; headers = [] }

operator_passes :
    authorize_control_plane (shipped unary_codec 50) operator_env operator_request "t1" "approve"
    ≡ ok operator_actor
unfolding authorize_control_plane ask_chain build_control_plane_chain shipped
    register_control_plane_authenticator put if_set text_at lookup try_chain operator_token either
    looks_like_signed_token starts_with compare_digest every or_else
operator_passes = refl

authorize_control_plane-IsBacked_example :
    IsBacked unary_codec 50 operator_env operator_request "t1" "approve" operator_actor
authorize_control_plane-IsBacked_example =
    authorize_control_plane-IsBacked unary_codec 50 operator_env operator_request "t1" "approve"
      operator_actor operator_passes

-- With no scheme configured nobody is let in.
nobody_passes :
    authorize_control_plane (shipped unary_codec 50) [] operator_request "t1" "approve"
    ≡ raised (
        http_error 503
          "Healer control plane has no credential scheme configured. Set at least one of SPECORA_HEALER_APPROVAL_SECRET, SPECORA_HEALER_OPERATOR_TOKEN, SPECORA_HEALER_PROXY_IDENTITY_HEADER.")
unfolding authorize_control_plane ask_chain build_control_plane_chain shipped
    register_control_plane_authenticator put if_set text_at lookup
nobody_passes = refl
