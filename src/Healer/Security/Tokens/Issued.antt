-- ===== src/Healer/Security/Tokens/Issued.antt =====
-- Minted tokens and the uses they are good for (`_issue` and `_verify` of healer/security.py).
use specora_core.Prelude.{
  ℕ, ◌+◌, ◌<◌, String, ◌≡◌, ◌↔◌, refl, sym, ◌∙◌, ap, subst, false, some, some-injective, List, [],
  ◌∷◌, arith,
}
use specora_core.Prelude.Results.{ok}
use specora_core.Prelude.Texts.{append}
use specora_core.Json.{ℤ, pos, Value, str, int, obj, Fields, get}
use specora_core.Healer.Security.{
  Codec, b64e, sign, later, has_expired, claims_of, issue, expiry, decoded, verify_parts, verify,
}
use specora_core.Healer.Security.Base64.{IsBase64, b64d-b64e, b64e-lacks}
use specora_core.Healer.Security.Tokens.{
  Permits, token_of, three_parts, token_of-parts, parts_pass, sign-lacks,
}

-- What JSON documents, for some claims: they are read back as an object that answers every key alike.
-- And an int is read as itself.
pub record IsJson (C : Codec) (claims : Fields) : Type 0 where
  pub read : Fields
  pub loads_lem : C.loads (C.dumps claims) ≡ some (obj read)
  pub get_lem : (key : String) → get key read ≡ get key claims
  pub int_lem : (n : ℤ) → C.int_of (int n) ≡ some n

module _ (C : Codec) (k : IsBase64 C) (typ tid act secret subject nonce : String) (ttl t now : ℕ)
    (j : IsJson C (claims_of typ tid act (pos (t + ttl)) nonce subject)) where
  minted : Fields
  minted = j.read

  minted_payload : String
  minted_payload = b64e C (C.dumps (claims_of typ tid act (pos (t + ttl)) nonce subject))

  minted_signature : String
  minted_signature = sign C secret (append "shv1." minted_payload)

  minted-decoded : decoded C minted_payload ≡ some (obj minted)
  unfolding decoded minted minted_payload
  minted-decoded =
      rw (b64d-b64e C k (C.dumps (claims_of typ tid act (pos (t + ttl)) nonce subject)), decoded)
        j.loads_lem

  minted-get :
      (key : String) (v : Value)
      → get key (claims_of typ tid act (pos (t + ttl)) nonce subject) ≡ some v
      → get key minted ≡ some v
  unfolding minted
  minted-get key v h = j.get_lem key ∙ h

  minted-expiry : expiry C minted ≡ some (pos (t + ttl))
  unfolding expiry claims_of get
  minted-expiry =
      rw (minted-get "exp" (int (pos (t + ttl))) refl, expiry) (j.int_lem (pos (t + ttl)))

  minted_verify :
      (typ' tid' act' : String)
      → verify C (issue C typ tid act secret (pos ttl) subject nonce t) typ' tid' act' secret now
        ≡ verify_parts C ("shv1" ∷ minted_payload ∷ minted_signature ∷ []) typ' tid' act' secret now
  unfolding verify issue later minted_payload minted_signature token_of
  minted_verify typ' tid' act' =
      ap (λ (ps : List String). verify_parts C ps typ' tid' act' secret now)
        (token_of-parts minted_payload minted_signature
          (b64e-lacks C k (C.dumps (claims_of typ tid act (pos (t + ttl)) nonce subject)))
          (sign-lacks C secret (append "shv1." minted_payload) k))

  minted-Permits : now < t + ttl → Permits C typ tid act now minted
  unfolding claims_of get has_expired
  minted-Permits h = record {
    typ_lem = minted-get "typ" (str typ) refl;
    tid_lem = minted-get "tid" (str tid) refl;
    act_lem = minted-get "act" (str act) refl;
    exp = pos (t + ttl);
    exp_lem = minted-expiry;
    alive = ground (arith, h);
  }

  obj-injective : (a b : Fields) → some (obj a) ≡ some (obj b) → a ≡ b
  obj-injective a b h = cc h

  not_expired : has_expired (pos (t + ttl)) now ≡ false → now < t + ttl
  unfolding has_expired
  not_expired h = ground (arith, h)

  minted_only :
      (p s : String)
      → ◌≡◌ {A = List String}
          ("shv1" ∷ minted_payload ∷ minted_signature ∷ [])
          ("shv1" ∷ p ∷ s ∷ [])
      → minted_payload ≡ p
  minted_only p s h = cc h

  str-injective : (a b : String) → some (str a) ≡ some (str b) → a ≡ b
  str-injective a b h = cc h

  only_minted :
      (typ' tid' act' : String) (d : Fields)
      → Permits C typ' tid' act' now d
      → d ≡ minted
      → (typ ≡ typ') × (tid ≡ tid') × (act ≡ act') × (now < t + ttl)
  unfolding claims_of get has_expired
  only_minted typ' tid' act' d p e = (
    str-injective typ typ'
        (sym (minted-get "typ" (str typ) refl) ∙ ap (get "typ") (sym e) ∙ p.typ_lem),
    str-injective tid tid'
        (sym (minted-get "tid" (str tid) refl) ∙ ap (get "tid") (sym e) ∙ p.tid_lem),
    str-injective act act'
        (sym (minted-get "act" (str act) refl) ∙ ap (get "act") (sym e) ∙ p.act_lem),
    not_expired (
        subst (λ (x : ℤ). has_expired x now ≡ false)
          (some-injective p.exp (pos (t + ttl)) (sym p.exp_lem ∙ ap (expiry C) e ∙ minted-expiry))
          p.alive),
  )

  -- A minted token verifies under its secret for its own purpose, ticket and action until it expires,
  -- and for no other purpose, ticket or action and at no later time. The claims that come back carry
  -- its nonce. The codec is base64's and JSON's, and the lifetime is not negative.
  pub verify-issue :
      (typ' tid' act' : String)
      → ((d : Fields) × (verify C
              (issue C typ tid act secret (pos ttl) subject nonce t)
              typ'
              tid'
              act'
              secret
              now
            ≡ ok d)
          × (get "nonce" d ≡ some (str nonce)))
        ↔ ((typ ≡ typ') × (tid ≡ tid') × (act ≡ act') × (now < t + ttl))
  unfolding claims_of get minted_signature
  verify-issue typ' tid' act' = (
    λ (d, h, n).
        let (payload, e, f, p) =
          three_parts C ("shv1" ∷ minted_payload ∷ minted_signature ∷ []) typ' tid' act' secret now
            d (sym (minted_verify typ' tid' act') ∙ h) in
        only_minted typ' tid' act' d p (
          obj-injective d minted (
            sym f
            ∙ ap (decoded C) (sym (minted_only payload (sign C secret (append "shv1." payload)) e))
            ∙ minted-decoded)),
    λ (a, b, c, h). (
      minted,
      minted_verify typ' tid' act'
          ∙ parts_pass C minted_payload typ' tid' act' secret now minted k minted-decoded
              (rw (sym a, sym b, sym c) (minted-Permits h)),
      minted-get "nonce" (str nonce) refl,
    ),
  )
