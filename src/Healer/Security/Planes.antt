-- ===== src/Healer/Security/Planes.antt =====
-- Who may do what (healer/security.py): the configured secrets, the data plane's token, CSRF
-- tokens, and the control plane's chain of authenticators. A request is handled at one time.
pub mod Chain
use specora_core.Prelude.{
  ℕ, String, Bool, true, false, ◌&&◌, ◌||◌, Option, none, some, List, [], ◌∷◌, ◌==◌, ltb,
  if◌then◌else◌, not, Dict, put, lookup,
}
use specora_core.Prelude.Results.{Result, ok, raised, http_error, ◌>>=◌}
use specora_core.Prelude.Texts.{append, starts_with, rstrip}
use specora_core.Json.{ℤ, pos, negsuc, Value, str, Fields, get, truthy}
use specora_core.Healer.Security.{
  Codec, text_at, either, Actor, principal, Credentials, header, candidate_tokens, compare_digest,
  issue, verify,
}

-- The environment's variables by their names, as the constants of the module.
abbrev pub ingest_token_env : String
ingest_token_env = "SPECORA_HEALER_INGEST_TOKEN"

abbrev pub approval_secret_env : String
approval_secret_env = "SPECORA_HEALER_APPROVAL_SECRET"

abbrev pub operator_token_env : String
operator_token_env = "SPECORA_HEALER_OPERATOR_TOKEN"

abbrev pub proxy_identity_header_env : String
proxy_identity_header_env = "SPECORA_HEALER_PROXY_IDENTITY_HEADER"

abbrev action_token_ttl_env : String
action_token_ttl_env = "SPECORA_HEALER_APPROVAL_TTL_SECONDS"

abbrev default_action_token_ttl : ℤ
default_action_token_ttl = pos 86400

abbrev csrf_ttl_seconds : ℤ
csrf_ttl_seconds = pos 3600

unfoldable pub configured_ttl : Codec → Dict String → ℤ
configured_ttl C env =
    let raw = text_at action_token_ttl_env env in
    if raw == "" then default_action_token_ttl else elim (C.read_int raw) [
      | some (pos n) ↦ if ltb 0 n then pos n else default_action_token_ttl
      | _ ↦ default_action_token_ttl
    ]

-- The argument `secret` of the callers, or the environment's.
unfoldable pub resolve : Option String → String → String
resolve none default = default
resolve (some secret) default = secret

unfoldable pub approval_secret : Option String → Dict String → Result String
unfolding resolve
approval_secret secret env =
    let resolved = resolve secret (text_at approval_secret_env env) in
    if resolved == ""
    then raised (
        http_error 503
          "Signed approval tokens are not configured. Set SPECORA_HEALER_APPROVAL_SECRET.")
    else ok resolved

unfoldable pub issue_action_token :
    Codec
    → Dict String
    → String
    → String
    → Option String
    → Option ℤ
    → String
    → String
    → ℕ
    → Result String
issue_action_token C env ticket_id action secret ttl subject nonce now = do
  resolved ← approval_secret secret env
  ok (
      issue C "action" ticket_id action resolved
        (elim ttl [ none ↦ configured_ttl C env | some t ↦ t ]) subject nonce now)

unfoldable pub verify_action_token :
    Codec → Dict String → String → String → String → Option String → ℕ → Result Fields
verify_action_token C env token ticket_id action secret now = do
  resolved ← approval_secret secret env
  verify C token "action" ticket_id action resolved now

unfoldable pub approval_tokens_enabled : Dict String → Bool
approval_tokens_enabled env = not (text_at approval_secret_env env == "")

-- token.startswith("shv1.")
unfoldable pub looks_like_signed_token : String → Bool
looks_like_signed_token token = starts_with "shv1." token

-- The per-process secret is an argument.
unfoldable pub csrf_secret : Dict String → String → String
csrf_secret env ephemeral =
    either (text_at approval_secret_env env) (either (text_at operator_token_env env) ephemeral)

unfoldable pub issue_csrf_token :
    Codec → Dict String → String → String → String → Actor → String → ℕ → String
issue_csrf_token C env ephemeral ticket_id action actor nonce now =
    issue C "csrf" ticket_id action (csrf_secret env ephemeral) csrf_ttl_seconds (principal actor)
      nonce now

-- str(claims.get("sub", ""))
unfoldable pub text_claim : Codec → String → Fields → String
text_claim C key claims = elim (get key claims) [ none ↦ "" | some v ↦ C.str_of v ]

unfoldable pub verify_csrf_token :
    Codec → Dict String → String → String → String → String → Actor → ℕ → Result (Unit {0})
unfolding text_claim
verify_csrf_token C env ephemeral token ticket_id action actor now =
    if token == "" then raised (http_error 403 "Missing CSRF token.") else (do
      claims ← verify C token "csrf" ticket_id action (csrf_secret env ephemeral) now
      same ← compare_digest (text_claim C "sub" claims) (principal actor)
      (if same
          then ok tt
          else raised (http_error 403 "CSRF token was issued to a different actor.")))

unfoldable pub require_ingest_token : Codec → Dict String → Credentials → Result Actor
require_ingest_token C env c =
    let configured = text_at ingest_token_env env in
    let presented = either c.bearer (header C c "X-Specora-Healer-Token") in
    if configured == ""
    then raised (
        http_error 503
          "Healer data plane is not configured. Set SPECORA_HEALER_INGEST_TOKEN on the Healer and on every service that reports errors to it.")
    else if presented == ""
    then raised (http_error 401 "Invalid or missing Healer data-plane token.")
    else (do
      same ← compare_digest presented configured
      (if same
          then ok (record { kind = "service"; id = "data-plane"; scope = none; nonce = "" })
          else raised (http_error 401 "Invalid or missing Healer data-plane token.")))

pub record Authenticator : Type 0 where
  pub name : String
  pub authenticate : Credentials → String → String → Result (Option Actor)

-- str(claims.get("sub") or "link")
subject_of : Codec → Fields → String
subject_of C claims = elim (get "sub" claims) [
  | none ↦ "link"
  | some v ↦ if truthy v then C.str_of v else "link"
]

unfoldable pub link_actor : Codec → String → String → Fields → Actor
unfolding subject_of text_claim
link_actor C ticket_id action claims = record {
  kind = "approval_link";
  id = subject_of C claims;
  scope = some (ticket_id, action);
  nonce = text_claim C "nonce" claims;
}

-- The loop over the candidate tokens.
unfoldable pub first_signed :
    Codec → Dict String → String → ℕ → String → String → List String → Result (Option Actor)
first_signed C env secret now ticket_id action [] = ok none
first_signed C env secret now ticket_id action (token ∷ tokens) =
    let rest = first_signed C env secret now ticket_id action tokens in
    if not (looks_like_signed_token token) then rest else (do
      claims ← verify_action_token C env token ticket_id action (some secret) now
      ok (some (link_actor C ticket_id action claims)))

unfoldable pub signed_action_token : Codec → Dict String → ℕ → String → Authenticator
signed_action_token C env now secret = record {
  name = "signed_action_token";
  authenticate =
      λ c ticket_id action. first_signed C env secret now ticket_id action (candidate_tokens c);
}

unfoldable pub operator_actor : Actor
operator_actor = record { kind = "operator"; id = "static-token"; scope = none; nonce = "" }

unfoldable pub operator_token : Codec → String → Authenticator
operator_token C token = record {
  name = "operator_token";
  authenticate = λ c ticket_id action.
      let presented = either c.bearer (header C c "X-Specora-Operator-Token") in
      if presented == "" || looks_like_signed_token presented then ok none else (do
        same ← compare_digest presented token
        if same then ok (some operator_actor) else ok none);
}

abbrev pub proxy_actor : String → Actor
proxy_actor identity = record { kind = "proxy"; id = identity; scope = none; nonce = "" }

unfoldable pub proxy_identity : Codec → String → Authenticator
proxy_identity C header_name = record {
  name = "proxy_identity";
  authenticate = λ c ticket_id action.
      let identity = C.strip (header C c header_name) in
      if identity == "" then ok none else ok (some (proxy_actor identity));
}

-- A factory reads the environment.
abbrev pub Factory : Type 0
Factory = Dict String → Option Authenticator

unfoldable pub register_control_plane_authenticator : String → Factory → Dict Factory → Dict Factory
register_control_plane_authenticator name factory registry = put name factory registry

unfoldable pub if_set : String → (String → Authenticator) → Factory
if_set variable make env =
    let value = text_at variable env in if value == "" then none else some (make value)

-- The registry as the module fills it.
unfoldable pub shipped : Codec → ℕ → Dict Factory
shipped C now =
    register_control_plane_authenticator "proxy_identity"
      (if_set proxy_identity_header_env (proxy_identity C))
      (register_control_plane_authenticator "operator_token"
        (if_set operator_token_env (operator_token C))
        (register_control_plane_authenticator "signed_action_token"
          (λ env. if_set approval_secret_env (signed_action_token C env now) env) []))

unfoldable pub build_control_plane_chain : Dict Factory → Dict String → List Authenticator
build_control_plane_chain [] env = []
build_control_plane_chain ((name, factory) ∷ registry) env =
    let rest = build_control_plane_chain registry env in
    elim (factory env) [ none ↦ rest | some authenticator ↦ authenticator ∷ rest ]

unfoldable pub or_else : Option Actor → Result Actor → Result Actor
or_else none rest = rest
or_else (some found) rest = ok found

unfoldable pub try_chain : List Authenticator → Credentials → String → String → Result Actor
try_chain [] c ticket_id action = raised (http_error 401 "Authentication required.")
try_chain (a ∷ chain) c ticket_id action =
    let rest = try_chain chain c ticket_id action in
    do actor ← a.authenticate c ticket_id action; or_else actor rest

unfoldable pub ask_chain : List Authenticator → Credentials → String → String → Result Actor
ask_chain [] c ticket_id action = raised (
    http_error 503
      "Healer control plane has no credential scheme configured. Set at least one of SPECORA_HEALER_APPROVAL_SECRET, SPECORA_HEALER_OPERATOR_TOKEN, SPECORA_HEALER_PROXY_IDENTITY_HEADER.")
ask_chain (a ∷ chain) c ticket_id action = try_chain (a ∷ chain) c ticket_id action

unfoldable pub authorize_control_plane :
    Dict Factory → Dict String → Credentials → String → String → Result Actor
authorize_control_plane registry env c ticket_id action =
    ask_chain (build_control_plane_chain registry env) c ticket_id action

-- os.environ.get(name, default)
text_or : String → String → Dict String → String
text_or name default env = elim (lookup name env) [ none ↦ default | some v ↦ v ]

unfoldable pub public_base_url : String → Dict String → String
unfolding text_or
public_base_url default_port env =
    let configured = rstrip b'/' (text_at "SPECORA_HEALER_PUBLIC_URL" env) in
    if configured == ""
    then append "http://localhost:" (text_or "SPECORA_HEALER_PORT" default_port env)
    else configured
