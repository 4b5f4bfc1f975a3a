-- ===== src/Healer/Security/Planes/Chain.antt =====
-- Where an actor of the control plane comes from (`authorize_control_plane` of healer/security.py).
use specora_core.Prelude.{
  ℕ, String, ◌≡◌, ◌≢◌, refl, sym, ◌∙◌, ap, subst, true, false, ◌||◌, Option, none, some,
  some-injective, List, [], ◌∷◌, ◌⊎◌, inl, inr, arith, ◌==◌, eq_iff, eq_refl, Bool-cases, Dict, mem,
  put,
}
use specora_core.Prelude.Options.{Option-cases}
use specora_core.Prelude.Results.{Result, ok, bind-eq-ok, ok-injective, guard_not-ok}
use specora_core.Json.{Fields}
use specora_core.Healer.Security.{
  Codec, text_at, either, Actor, Credentials, header, candidate_tokens, compare_digest, verify,
}
use specora_core.Healer.Security.Tokens.{compare_digest-eq}
use specora_core.Healer.Security.Planes.{
  approval_secret_env, operator_token_env, proxy_identity_header_env, approval_secret, resolve,
  verify_action_token, looks_like_signed_token, Authenticator, link_actor, first_signed,
  signed_action_token, operator_actor, operator_token, proxy_identity, Factory,
  register_control_plane_authenticator, if_set, shipped, ask_chain, or_else, proxy_actor,
  build_control_plane_chain, try_chain, authorize_control_plane,
}

-- One of the elements is as the predicate says.
abbrev Any {ℓ} : {A : Type ℓ} → (A → Type 0) → List A → Type 0
Any P [] = ⊥
Any P (x ∷ xs) = P x ⊎ Any P xs

-- What stands behind an actor: a token of the request that verifies for this ticket and action under
-- the configured secret, the configured operator token, or the identity in the configured header.
pub data IsBacked (C : Codec) (now : ℕ) (env : Dict String) (c : Credentials)
    (ticket_id action : String) : Actor → Type 0 where
  by_link :
      (token secret : String) (claims : Fields)
      → text_at approval_secret_env env ≡ secret
      → secret ≢ ""
      → mem token (candidate_tokens c) ≡ true
      → verify C token "action" ticket_id action secret now ≡ ok claims
      → IsBacked C now env c ticket_id action (link_actor C ticket_id action claims)
  by_operator :
      (secret : String)
      → text_at operator_token_env env ≡ secret
      → secret ≢ ""
      → either c.bearer (header C c "X-Specora-Operator-Token") ≡ secret
      → IsBacked C now env c ticket_id action operator_actor
  by_proxy :
      (name identity : String)
      → text_at proxy_identity_header_env env ≡ name
      → name ≢ ""
      → C.strip (header C c name) ≡ identity
      → identity ≢ ""
      → IsBacked C now env c ticket_id action (proxy_actor identity)

Found : Credentials → String → String → Actor → Authenticator → Type 0
Found c ticket_id action actor a = a.authenticate c ticket_id action ≡ ok (some actor)

or_else-ok :
    (o : Option Actor) (rest : Result Actor) (actor : Actor)
    → or_else o rest ≡ ok actor
    → (o ≡ some actor) ⊎ (rest ≡ ok actor)
unfolding or_else
or_else-ok none rest actor h = inr h
or_else-ok (some b) rest actor h = inl (ap some (ok-injective b actor h))

try_chain-Found :
    (chain : List Authenticator) (c : Credentials) (ticket_id action : String) (actor : Actor)
    → try_chain chain c ticket_id action ≡ ok actor
    → Any (Found c ticket_id action actor) chain
unfolding try_chain Found
try_chain-Found [] c i action actor h = absurd (cc h)
try_chain-Found (a ∷ chain) c i action actor h =
    let (o, e, f) = bind-eq-ok (a.authenticate c i action) _ h in
    elim (or_else-ok o (try_chain chain c i action) actor f) [
      | inl g ↦ inl (e ∙ ap ok g)
      | inr g ↦ inr (try_chain-Found chain c i action actor g)
    ]

ask_chain-Found :
    (chain : List Authenticator) (c : Credentials) (ticket_id action : String) (actor : Actor)
    → ask_chain chain c ticket_id action ≡ ok actor
    → Any (Found c ticket_id action actor) chain
unfolding ask_chain
ask_chain-Found [] c i action actor h = absurd (cc h)
ask_chain-Found (a ∷ chain) c i action actor h = try_chain-Found (a ∷ chain) c i action actor h

MadeBy : Credentials → String → String → Actor → Dict String → String × Factory → Type 0
MadeBy c i action actor env entry =
    (a : Authenticator) × (entry.1 env ≡ some a) × Found c i action actor a

chain-MadeBy :
    (registry : Dict Factory) (env : Dict String) (c : Credentials) (i action : String)
    (actor : Actor)
    → Any (Found c i action actor) (build_control_plane_chain registry env)
    → Any (MadeBy c i action actor env) registry
unfolding build_control_plane_chain MadeBy
chain-MadeBy [] env c i action actor h = h
chain-MadeBy ((name, factory) ∷ registry) env c i action actor h =
    elim (Option-cases (factory env)) [
      | inl e ↦
          inr (chain-MadeBy registry env c i action actor (rw (e, build_control_plane_chain) at h))
      | inr (a, e) ↦ elim (rw (e, build_control_plane_chain) at h) [
        | inl f ↦ inl (a, e, f)
        | inr g ↦ inr (chain-MadeBy registry env c i action actor g)
      ]
    ]

is_set : (v : String) → (v == "") ≡ false → v ≢ ""
is_set v h q = absurd (cc (h, (eq_iff v "").1 q))

if_set-some :
    (variable : String) (make : String → Authenticator) (env : Dict String) (a : Authenticator)
    → if_set variable make env ≡ some a
    → (text_at variable env ≢ "") × (make (text_at variable env) ≡ a)
unfolding if_set
if_set-some variable make env a h = elim (Bool-cases (text_at variable env == "")) [
  | inl e ↦ absurd (cc (rw (e, if_set) at h))
  | inr e ↦ (
    is_set (text_at variable env) e,
    some-injective (make (text_at variable env)) a (rw (e, if_set) at h),
  )
]

approval_secret-some :
    (s r : String) (env : Dict String) → approval_secret (some s) env ≡ ok r → s ≡ r
unfolding approval_secret resolve
approval_secret-some s r env h = let (e, f) = guard_not-ok (s == "") _ _ h in ok-injective s r f

verify_action_token-verify :
    (C : Codec) (env : Dict String) (token i action secret : String) (now : ℕ) (claims : Fields)
    → verify_action_token C env token i action (some secret) now ≡ ok claims
    → verify C token "action" i action secret now ≡ ok claims
unfolding verify_action_token
verify_action_token-verify C env token i action secret now claims h =
    let (r, e, f) = bind-eq-ok (approval_secret (some secret) env) _ h in
    rw (approval_secret-some secret r env e) f

first_signed-IsBacked :
    (C : Codec) (now : ℕ) (env : Dict String) (secret i action : String) (tokens : List String)
    (actor : Actor)
    → secret ≢ ""
    → first_signed C env secret now i action tokens ≡ ok (some actor)
    → (token : String) × (claims : Fields) × (mem token tokens ≡ true)
      × (verify C token "action" i action secret now ≡ ok claims)
      × (actor ≡ link_actor C i action claims)
unfolding first_signed mem
first_signed-IsBacked C now env secret i action [] actor n h = absurd (cc h)
first_signed-IsBacked C now env secret i action (t ∷ ts) actor n h =
    elim (Bool-cases (looks_like_signed_token t)) [
      | inl e ↦
          let (claims, v, a) =
            bind-eq-ok (verify_action_token C env t i action (some secret) now) _
              (rw (e, first_signed) at h) in
          (
            t,
            claims,
            ground (arith, eq_refl t),
            verify_action_token-verify C env t i action secret now claims v,
            sym (
                some-injective (link_actor C i action claims) actor
                  (ok-injective (some (link_actor C i action claims)) (some actor) a)),
          )
      | inr e ↦
          let (token, claims, m, v, a) =
            first_signed-IsBacked C now env secret i action ts actor n
              (rw (e, first_signed) at h) in
          (token, claims, ground (arith, m), v, a)
    ]

operator_token-IsBacked :
    (C : Codec) (now : ℕ) (env : Dict String) (secret i action : String) (c : Credentials)
    (actor : Actor)
    → text_at operator_token_env env ≡ secret
    → secret ≢ ""
    → Found c i action actor (operator_token C secret)
    → IsBacked C now env c i action actor
unfolding operator_token Found
operator_token-IsBacked C now env secret i action c actor s n h =
    let presented = either c.bearer (header C c "X-Specora-Operator-Token") in
    elim (Bool-cases (presented == "" || looks_like_signed_token presented)) [
      | inl e ↦ absurd (cc (rw e at h))
      | inr e ↦
          let (same, f, g) = bind-eq-ok (compare_digest presented secret) _ (rw e at h) in
          elim (Bool-cases same) [
            | inl k ↦
                subst (IsBacked C now env c i action)
                  (some-injective operator_actor actor
                    (ok-injective (some operator_actor) (some actor) (rw k at g)))
                  (by_operator secret s n (compare_digest-eq presented secret (f ∙ ap ok k)))
            | inr k ↦ absurd (cc (rw k at g))
          ]
    ]

proxy_identity-IsBacked :
    (C : Codec) (now : ℕ) (env : Dict String) (name i action : String) (c : Credentials)
    (actor : Actor)
    → text_at proxy_identity_header_env env ≡ name
    → name ≢ ""
    → Found c i action actor (proxy_identity C name)
    → IsBacked C now env c i action actor
unfolding proxy_identity Found
proxy_identity-IsBacked C now env name i action c actor s n h =
    elim (Bool-cases (C.strip (header C c name) == "")) [
      | inl e ↦ absurd (cc (rw e at h))
      | inr e ↦
          let identity = C.strip (header C c name) in
          subst (IsBacked C now env c i action)
            (some-injective (proxy_actor identity) actor
              (ok-injective (some (proxy_actor identity)) (some actor) (rw e at h)))
            (by_proxy name identity s n refl (is_set identity e))
    ]

signed_action_token-IsBacked :
    (C : Codec) (now : ℕ) (env : Dict String) (secret i action : String) (c : Credentials)
    (actor : Actor)
    → text_at approval_secret_env env ≡ secret
    → secret ≢ ""
    → Found c i action actor (signed_action_token C env now secret)
    → IsBacked C now env c i action actor
unfolding signed_action_token Found
signed_action_token-IsBacked C now env secret i action c actor s n h =
    let (token, claims, m, v, a) =
      first_signed-IsBacked C now env secret i action (candidate_tokens c) actor n h in
    subst (IsBacked C now env c i action) (sym a) (by_link token secret claims s n m v)

-- An actor of the control plane is always backed by a configured credential of the request itself,
-- and a link only by a token for this very ticket and action: with no scheme configured nobody is
-- authorized.
pub authorize_control_plane-IsBacked :
    (C : Codec) (now : ℕ) (env : Dict String) (c : Credentials) (ticket_id action : String)
    (actor : Actor)
    → authorize_control_plane (shipped C now) env c ticket_id action ≡ ok actor
    → IsBacked C now env c ticket_id action actor
unfolding authorize_control_plane shipped register_control_plane_authenticator put MadeBy
authorize_control_plane-IsBacked C now env c i action actor h =
    elim (chain-MadeBy (shipped C now) env c i action actor
      (ask_chain-Found (build_control_plane_chain (shipped C now) env) c i action actor h)) [
        | inl (a, e, f) ↦
            let (n, g) = if_set-some approval_secret_env (signed_action_token C env now) env a e in
            signed_action_token-IsBacked C now env (text_at approval_secret_env env) i action c
              actor refl n (subst (Found c i action actor) (sym g) f)
        | inr (inl (a, e, f)) ↦
            let (n, g) = if_set-some operator_token_env (operator_token C) env a e in
            operator_token-IsBacked C now env (text_at operator_token_env env) i action c actor refl
              n (subst (Found c i action actor) (sym g) f)
        | inr (inr (inl (a, e, f))) ↦
            let (n, g) = if_set-some proxy_identity_header_env (proxy_identity C) env a e in
            proxy_identity-IsBacked C now env (text_at proxy_identity_header_env env) i action c
              actor refl n (subst (Found c i action actor) (sym g) f)
        | inr (inr (inr x)) ↦ elim x [ ]
      ]
