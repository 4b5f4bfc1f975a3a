-- ===== src/Healer/Security.antt =====
-- Credentials of the healer's HTTP surface (healer/security.py): signed tokens, CSRF tokens, the
-- data-plane secret and the chain of control-plane schemes. The environment, the clock and a fresh
-- nonce are arguments. The base64 codec, HMAC, JSON and Python's text conversions are the record
-- `Codec`. `crash` is an exception that is not an AuthError.
pub mod Base64
pub mod Tokens
pub mod Planes
pub mod Tests
use Prim.Native.Nat.{◌%◌}
use Prim.Native.Char.{code}
use Prim.Native.String as Text
use specora_core.Prelude.{
  ℕ, zero, suc, ◌+◌, ◌-◌, String, Bool, true, false, ◌&&◌, ◌||◌, Option, none, some, List, [], ◌∷◌,
  ◌==◌, ltb, leb, eqb, if◌then◌else◌, not, Dict, lookup, select,
}
use specora_core.Prelude.Results.{Result, ok, raised, http_error, crash, ◌>>=◌}
use specora_core.Prelude.Texts.{append, size, is_ascii, split_by, rstrip}
use specora_core.Json.{ℤ, pos, negsuc, Value, str, int, obj, Fields, field, end, get, truthy}

pub record Codec : Type 0 where
  -- base64.urlsafe_b64encode(raw).decode("ascii") and its inverse, `none` for a ValueError
  pub encode : List ℕ → String
  pub decode : String → Option (List ℕ)
  -- hmac.new(secret, message, sha256).digest() on UTF-8 texts
  pub digest : String → String → List ℕ
  -- json.dumps(claims, sort_keys=True, separators=(",", ":")).encode("utf-8")
  pub dumps : Fields → List ℕ
  -- json.loads(raw), `none` for a ValueError
  pub loads : List ℕ → Option Value
  -- int(value) and int(text), `none` if it raises
  pub int_of : Value → Option ℤ
  pub read_int : String → Option ℤ
  -- str(value), text.lower() and text.strip()
  pub str_of : Value → String
  pub lower : String → String
  pub strip : String → String

-- mapping.get(name, ""), of the environment or of the headers
unfoldable pub text_at : String → Dict String → String
text_at name env = elim (lookup name env) [ none ↦ "" | some v ↦ v ]

unfoldable pub either : String → String → String
either s t = if s == "" then t else s

pub record Actor : Type 0 where
  pub kind : String
  pub id : String
  pub scope : Option (String × String)
  pub nonce : String

unfoldable pub audit_id : Actor → String
audit_id a = append a.kind (append ":" a.id)

unfoldable pub principal : Actor → String
unfolding audit_id
principal a = if a.kind == "approval_link" then a.id else audit_id a

pub record Credentials : Type 0 where
  pub bearer : String
  pub query_token : String
  pub form_token : String
  pub headers : Dict String

unfoldable pub header_in : (String → String) → String → Dict String → String
header_in lower lowered [] = ""
header_in lower lowered ((k, v) ∷ hs) = if lower k == lowered then v else header_in lower lowered hs

unfoldable pub header : Codec → Credentials → String → String
header C c name = header_in C.lower (C.lower name) c.headers

unfoldable pub candidate_tokens : Credentials → List String
candidate_tokens c = select (λ t. not (t == "")) (c.form_token ∷ c.query_token ∷ c.bearer ∷ [])

-- "=" * n
unfoldable pub pads : ℕ → String
pads zero = ""
pads (suc n) = Text.◌∷◌ "=" (pads n)

unfoldable pub b64e : Codec → List ℕ → String
b64e C raw = rstrip b'=' (C.encode raw)

-- -n % 4 of a natural number
unfoldable pub b64d : Codec → String → Option (List ℕ)
b64d C text = C.decode (append text (pads ((4 - size text % 4) % 4)))

unfoldable pub sign : Codec → String → String → String
sign C secret message = b64e C (C.digest secret message)

-- hmac.compare_digest of two texts: a TypeError unless both are ASCII.
unfoldable pub compare_digest : String → String → Result Bool
compare_digest a b = if is_ascii a && is_ascii b then ok (a == b) else raised crash

unfoldable pub later : ℕ → ℤ → ℤ
later now (pos ttl) = pos (now + ttl)
later now (negsuc n) = if ltb n now then pos (now - suc n) else negsuc (n - now)

-- exp <= now
unfoldable pub has_expired : ℤ → ℕ → Bool
has_expired (pos t) now = leb t now
has_expired (negsuc n) now = true

unfoldable pub claims_of : String → String → String → ℤ → String → String → Fields
claims_of typ ticket_id action exp nonce subject = field "typ" (str typ) (
    field "tid" (str ticket_id) (
      field "act" (str action) (
        field "exp" (int exp) (
          field "nonce" (str nonce)
            (if subject == "" then end else field "sub" (str subject) end)))))

unfoldable pub issue : Codec → String → String → String → String → ℤ → String → String → ℕ → String
issue C typ ticket_id action secret ttl subject nonce now =
    let claims = claims_of typ ticket_id action (later now ttl) nonce subject in
    let signed = append "shv1." (b64e C (C.dumps claims)) in
    append signed (append "." (sign C secret signed))

-- value == text
unfoldable pub is_text : String → Option Value → Bool
is_text text (some (str s)) = s == text
is_text text _ = false

-- claims.get(key) == text
unfoldable pub says : String → String → Fields → Bool
unfolding is_text
says key text claims = is_text text (get key claims)

-- int(claims.get("exp", 0))
unfoldable pub expiry : Codec → Fields → Option ℤ
expiry C claims = elim (get "exp" claims) [ none ↦ C.int_of (int (pos 0)) | some v ↦ C.int_of v ]

unfoldable pub check_expiry : Option ℤ → ℕ → Fields → Result Fields
check_expiry none now claims = raised crash
check_expiry (some exp) now claims =
    if has_expired exp now then raised (http_error 401 "Token has expired.") else ok claims

unfoldable pub check_claims : Codec → String → String → String → ℕ → Fields → Result Fields
check_claims C typ ticket_id action now claims =
    if not (says "typ" typ claims)
    then raised (http_error 401 "Token is not valid for this purpose.")
    else if not (says "tid" ticket_id claims)
    then raised (http_error 401 "Token is not valid for this ticket.")
    else if not (says "act" action claims)
    then raised (http_error 401 "Token is not valid for this action.")
    else check_expiry (expiry C claims) now claims

unfoldable pub decoded : Codec → String → Option Value
decoded C payload = elim (b64d C payload) [ none ↦ none | some raw ↦ C.loads raw ]

unfoldable pub as_claims : Option Value → Result Fields
as_claims (some (obj claims)) = ok claims
as_claims _ = raised (http_error 401 "Malformed token payload.")

unfoldable pub read_claims : Codec → String → Result Fields
read_claims C payload = as_claims (decoded C payload)

unfoldable pub verify_parts :
    Codec → List String → String → String → String → String → ℕ → Result Fields
verify_parts C (version ∷ payload ∷ signature ∷ []) typ ticket_id action secret now =
    if not (version == "shv1") then raised (http_error 401 "Malformed token.") else (do
      same ← compare_digest (sign C secret (append version (append "." payload))) signature
      if not same
          then raised (http_error 401 "Invalid token signature.")
          else (do claims ← read_claims C payload; check_claims C typ ticket_id action now claims))
verify_parts C _ typ ticket_id action secret now = raised (http_error 401 "Malformed token.")

unfoldable pub verify : Codec → String → String → String → String → String → ℕ → Result Fields
verify C token typ ticket_id action secret now =
    verify_parts C (split_by b'.' token) typ ticket_id action secret now
