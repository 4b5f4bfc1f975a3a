-- ===== src/Healer/Server/Admission.antt =====
-- What it takes to get a ticket into the queue (`ingest` of healer/api/server.py).
use specora_core.Prelude.{
  String, ◌≡◌, ◌≢◌, refl, true, ◌&&◌, ◌==◌, eq_iff, Option, none, some, ◌⊎◌, inl, inr, Bool-cases,
  Dict,
}
use specora_core.Prelude.Options.{Option-cases}
use specora_core.Prelude.Results.{Result, ok, raised, Failure, Result-cases, crash}
use specora_core.Prelude.Texts.{is_ascii}
use specora_core.Healer.Models.{TicketSource, source_of}
use specora_core.Healer.Queue.{enqueue}
use specora_core.Healer.Pipeline.{World}
use specora_core.Healer.Security.{
  Actor, Codec, Credentials, text_at, either, header, compare_digest,
}
use specora_core.Healer.Security.Planes.{require_ingest_token, ingest_token_env}
use specora_core.Healer.RateLimit.{Floats, TokenBucketLimiter, check}
use specora_core.Healer.Server.{Request, Service, credentials, Response}
use specora_core.Healer.Server.Handlers.{
  IngestRequest, new_ticket, accepted, stored, admit, admit_source, after_limit, after_token,
  ingest,
}

-- A report was let in: the service has a secret and the sender presented it, the limiter let the
-- report through, its source is one of the known ones, its ticket's id was new, and the queue holds
-- the ticket and is else as it was.
pub record IsAdmitted (P : Floats) (S : Service) (r : Request) (body : IngestRequest)
    (id stamp : String) (t : P.F) (w : World) (l : TokenBucketLimiter P) (outcome : Result Response)
    (w' : World) : Type 0 where
  pub secret_set : text_at "SPECORA_HEALER_INGEST_TOKEN" S.env ≢ ""
  pub secret_sent :
      either
        (credentials S.codec r none).bearer
        (header S.codec (credentials S.codec r none) "X-Specora-Healer-Token")
      ≡ text_at "SPECORA_HEALER_INGEST_TOKEN" S.env
  pub within_rate : (check P body.contract_fqn t l).0.allowed ≡ true
  pub source : TicketSource
  pub source_known : source_of body.source ≡ some source
  pub stored : enqueue (new_ticket body source id stamp) w.db ≡ some w'.db
  pub rest_same : w' ≡ record w { db = w'.db }
  pub answered : outcome ≡ ok (accepted (new_ticket body source id stamp))

abbrev pub IsRefused : World → Result Response → World → Type 0
IsRefused w outcome w' = ((e : Failure) × (outcome ≡ raised e)) × (w' ≡ w)

require_ingest_token-ok :
    (C : Codec) (env : Dict String) (c : Credentials) (actor : Actor)
    → require_ingest_token C env c ≡ ok actor
    → (text_at ingest_token_env env ≢ "")
      × (either c.bearer (header C c "X-Specora-Healer-Token") ≡ text_at ingest_token_env env)
unfolding require_ingest_token compare_digest
require_ingest_token-ok C env c actor h =
    let configured = text_at ingest_token_env env in
    let presented = either c.bearer (header C c "X-Specora-Healer-Token") in
    elim (Bool-cases (configured == "")) [
      | inl e ↦ absurd (cc (rw (e, require_ingest_token) at h))
      | inr e ↦ elim (Bool-cases (presented == "")) [
        | inl f ↦ absurd (cc (rw (e, f, require_ingest_token) at h))
        | inr f ↦ elim (Bool-cases (is_ascii presented && is_ascii configured)) [
          | inr g ↦ absurd (cc (rw (e, f, g, require_ingest_token) at h))
          | inl g ↦ elim (Bool-cases (presented == configured)) [
            | inl k ↦ (λ n. cc (e, (eq_iff configured "").1 n), (eq_iff presented configured).0 k)
            | inr k ↦ absurd (cc (rw (e, f, g, k, require_ingest_token) at h))
          ]
        ]
      ]
    ]

stored-cases :
    (body : IngestRequest) (id stamp : String) (source : Option TicketSource) (w : World)
    → let (outcome, w') = admit_source body source id stamp w in
      ((s : TicketSource) × (source ≡ some s)
        × (enqueue (new_ticket body s id stamp) w.db ≡ some w'.db)
        × (w' ≡ record w { db = w'.db })
        × (outcome ≡ ok (accepted (new_ticket body s id stamp))))
      ⊎ IsRefused w outcome w'
unfolding admit_source admit stored
stored-cases body id stamp none w = inr ((crash, refl), refl)
stored-cases body id stamp (some s) w =
    elim (Option-cases (enqueue (new_ticket body s id stamp) w.db)) [
      | inl e ↦ inr (rw e ((crash, refl), refl))
      | inr (db, e) ↦ inl (s, refl, rw e refl, rw e refl, rw e refl)
    ]

-- A report is let in with the service's secret, by leave of the limiter, from a known source and with
-- a new id, and the queue holds its ticket; or the request
-- raises and the database, the disk and the log are as they were.
pub ingest-IsAdmitted :
    (P : Floats) (S : Service) (r : Request) (body : IngestRequest) (id stamp : String) (t : P.F)
    (w : World) (l : TokenBucketLimiter P)
    → let (outcome, (w', l')) = ingest P S r body id stamp t (w, l) in
      IsAdmitted P S r body id stamp t w l outcome w' ⊎ IsRefused w outcome w'
unfolding ingest after_token after_limit
ingest-IsAdmitted P S r body id stamp t w l =
    elim (Result-cases (require_ingest_token S.codec S.env (credentials S.codec r none))) [
      | inr (e, f) ↦ inr (rw f ((e, refl), refl))
      | inl (caller, f) ↦
          let secret =
            require_ingest_token-ok S.codec S.env (credentials S.codec r none) caller f in
          elim (Bool-cases (check P body.contract_fqn t l).0.allowed) [
            | inr g ↦ inr (rw (f, g) ((_, refl), refl))
            | inl g ↦ elim (stored-cases body id stamp (source_of body.source) w) [
              | inr h ↦ inr (rw (f, g) h)
              | inl (source, h, k, n, o) ↦ inl (
                  rw (f, g)
                    (record {
                      secret_set = secret.0;
                      secret_sent = secret.1;
                      within_rate = g;
                      source = source;
                      source_known = h;
                      stored = k;
                      rest_same = n;
                      answered = o;
                    }))
            ]
          ]
    ]
