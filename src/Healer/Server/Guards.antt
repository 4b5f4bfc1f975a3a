-- ===== src/Healer/Server/Guards.antt =====
-- What stands between a request and a mutation (`_authorize` of healer/api/server.py).
use specora_core.Prelude.{
  ℕ, String, ◌≡◌, ◌≢◌, ◌∙◌, refl, ap, arith, Bool, ◌&&◌, if◌then◌else◌, true, false, Option, ◌==◌,
  eq_iff, Bool-cases, inl, inr, ◌⊎◌, Dict,
}
use specora_core.Prelude.Results.{
  ok, raised, Failure, Result-cases, http_error, bind-eq-ok, ok-injective,
}
use specora_core.Prelude.Texts.{is_ascii}
use specora_core.Json.{Fields}
use specora_core.Healer.Queue.{Db, is_consumed, consume_token_nonce}
use specora_core.Healer.Security.{
  Actor, audit_id, text_at, either, principal, verify, compare_digest,
}
use specora_core.Healer.Security.Planes.{verify_csrf_token, csrf_secret, text_claim}
use specora_core.Healer.Server.{
  Request, Service, form_text, is_form_post, is_mutating, needs_csrf, check_csrf, burn, after_csrf,
  after_chain, authenticated, authorize,
}

-- The nonce of the actor's credential was spent by the request: there is none, or it was not consumed
-- before and is the only thing that the request has written.
abbrev pub IsSpent : String → String → String → Actor → Db → Db → Type 0
IsSpent ticket_id action stamp actor db db' =
    ((actor.nonce ≡ "") × (db' ≡ db))
    ⊎ ((is_consumed actor.nonce db.consumed_tokens ≡ false)
        × (db' ≡ (consume_token_nonce actor.nonce ticket_id action (audit_id actor) stamp db).1))

-- A CSRF token that verifies for the action on the ticket and was issued to the actor.
abbrev pub IsOwnToken : Service → String → String → String → Actor → ℕ → Type 0
IsOwnToken S token ticket_id action actor now =
    (claims : Fields) × (verify S.codec token "csrf" ticket_id action
        (csrf_secret S.env S.csrf_fallback) now
      ≡ ok claims)
    × (text_claim S.codec "sub" claims ≡ principal actor)

pub record IsGuarded (S : Service) (r : Request) (ticket_id action : String)
    (form : Option (Dict String)) (now : ℕ) (stamp : String) (actor : Actor) (db db' : Db)
    : Type 0 where
  pub authentic : authenticated S r ticket_id action form now ≡ ok actor
  pub no_forgery :
      ((actor.kind ≢ "proxy") × (is_form_post r ≡ false))
      ⊎ IsOwnToken S
          (either (form_text "csrf" form) (text_at "x-specora-csrf" r.headers))
          ticket_id
          action
          actor
          now
  pub spent : IsSpent ticket_id action stamp actor db db'

-- A consumption answers whether the nonce was unconsumed, and a refused one writes nothing.
consume-answers :
    (n i action by stamp : String) (db : Db)
    → ((is_consumed n db.consumed_tokens ≡ false)
        × ((consume_token_nonce n i action by stamp db).0 ≡ true))
      ⊎ (consume_token_nonce n i action by stamp db ≡ (false, db))
unfolding consume_token_nonce
consume-answers n i action by stamp db = elim (Bool-cases (is_consumed n db.consumed_tokens)) [
  | inl e ↦ inr (rw e refl)
  | inr e ↦ inl (e, rw e refl)
]

burn-cases :
    (i action stamp : String) (actor : Actor) (db : Db)
    → ((burn i action stamp actor db).0 ≡ ok actor)
        × IsSpent i action stamp actor db (burn i action stamp actor db).1
      ⊎ ((e : Failure) × (burn i action stamp actor db ≡ (raised e, db)))
unfolding burn
burn-cases i action stamp actor db = elim (Bool-cases (actor.nonce == "")) [
  | inl e ↦ inl (rw e (refl, inl ((eq_iff actor.nonce "").0 e, refl)))
  | inr e ↦ elim (consume-answers actor.nonce i action (audit_id actor) stamp db) [
    | inl (f, g) ↦ inl (rw (e, g) (refl, inr (f, refl)))
    | inr f ↦ inr (http_error 401 "This approval link has already been used.", rw (e, f) refl)
  ]
]

same_of :
    (same : Bool) (e : Failure) (u : Unit {0})
    → (if same then ok tt else raised e) ≡ ok u
    → same ≡ true
same_of true e u h = refl
same_of false e u h = cc

compare_digest-ok : (a b : String) → compare_digest a b ≡ ok true → a == b ≡ true
unfolding compare_digest
compare_digest-ok a b h = elim (Bool-cases (is_ascii a && is_ascii b)) [
  | inl e ↦ ok-injective (a == b) true (rw (e, compare_digest) at h)
  | inr e ↦ absurd (cc (rw (e, compare_digest) at h))
]

verify_csrf_token-ok :
    (S : Service) (token i action : String) (actor : Actor) (now : ℕ) (u : Unit {0})
    → verify_csrf_token S.codec S.env S.csrf_fallback token i action actor now ≡ ok u
    → IsOwnToken S token i action actor now
unfolding verify_csrf_token compare_digest
verify_csrf_token-ok S token i action actor now u h = elim (Bool-cases (token == "")) [
  | inl e ↦ absurd (cc (rw (e, verify_csrf_token) at h))
  | inr e ↦
      let (claims, f, g) =
        bind-eq-ok (verify S.codec token "csrf" i action (csrf_secret S.env S.csrf_fallback) now) _
          (rw (e, verify_csrf_token) at h) in
      let (same, k, l) =
        bind-eq-ok (compare_digest (text_claim S.codec "sub" claims) (principal actor)) _ g in
      (
        claims,
        f,
        (eq_iff (text_claim S.codec "sub" claims) (principal actor)).0 (
            compare_digest-ok (text_claim S.codec "sub" claims) (principal actor)
              (k ∙ ap (λ (b : Bool). ok b) (same_of same _ u l))),
      )
]

needs_csrf-false :
    (r : Request) (actor : Actor)
    → needs_csrf r actor ≡ false
    → (actor.kind ≢ "proxy") × (is_form_post r ≡ false)
unfolding needs_csrf
needs_csrf-false r actor h = elim (Bool-cases (actor.kind == "proxy")) [
  | inl e ↦ absurd (cc (e, h))
  | inr e ↦ (λ k. cc (e, (eq_iff actor.kind "proxy").1 k), ground (arith, e, h))
]

check_csrf-ok :
    (S : Service) (r : Request) (i action : String) (form : Option (Dict String)) (now : ℕ)
    (actor : Actor) (u : Unit {0})
    → check_csrf S r i action form now actor ≡ ok u
    → ((actor.kind ≢ "proxy") × (is_form_post r ≡ false))
      ⊎ IsOwnToken S
          (either (form_text "csrf" form) (text_at "x-specora-csrf" r.headers))
          i
          action
          actor
          now
unfolding check_csrf
check_csrf-ok S r i action form now actor u h = elim (Bool-cases (needs_csrf r actor)) [
  | inl e ↦ inr (
      verify_csrf_token-ok S (either (form_text "csrf" form) (text_at "x-specora-csrf" r.headers)) i
        action actor now u (rw (e, check_csrf) at h))
  | inr e ↦ inl (needs_csrf-false r actor e)
]

-- A mutating request is authorized for an actor that its credentials prove; when it is a form
-- post or the actor is the proxy's, it carries a CSRF token that verifies for the action on the
-- ticket and was issued to that actor; and its nonce is spent by it. Or it raises and the
-- database is as it was.
pub authorize-IsGuarded :
    (S : Service) (r : Request) (ticket_id action : String) (form : Option (Dict String)) (now : ℕ)
    (stamp : String) (db : Db)
    → is_mutating action ≡ true
    → let (outcome, db') = authorize S r ticket_id action form now stamp db in
      ((actor : Actor) × (outcome ≡ ok actor)
        × IsGuarded S r ticket_id action form now stamp actor db db')
      ⊎ ((e : Failure) × (outcome ≡ raised e) × (db' ≡ db))
unfolding authorize after_chain after_csrf
authorize-IsGuarded S r i action form now stamp db m =
    elim (Result-cases (authenticated S r i action form now)) [
      | inr (e, f) ↦ inr (e, rw f refl, rw f refl)
      | inl (actor, f) ↦ elim (Result-cases (check_csrf S r i action form now actor)) [
        | inr (e, g) ↦ inr (e, rw (f, m, g) refl, rw (f, m, g) refl)
        | inl (u, g) ↦ elim (burn-cases i action stamp actor db) [
          | inl (h, k) ↦ inl (
            actor,
            rw (f, m, g) h,
            record {
              authentic = f;
              no_forgery = check_csrf-ok S r i action form now actor u g;
              spent = rw (f, m, g) k;
            },
          )
          | inr (e, h) ↦ inr (e, rw (f, m, g) (ap (λ x. x.0) h), rw (f, m, g) (ap (λ x. x.1) h))
        ]
      ]
    ]
