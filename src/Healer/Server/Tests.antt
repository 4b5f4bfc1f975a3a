-- ===== src/Healer/Server/Tests.antt =====
-- Two links for two tickets, and their requests.
use specora_core.Prelude.Texts.{every, push, size, split_by, starts_with, rstrip}
use specora_core.Json.{get, truthy}
use specora_core.Prelude.{
  String, ◌≡◌, ◌≢◌, refl, true, none, some, List, [], ◌∷◌, ◌⊎◌, eq_iff, put, lookup,
}
use specora_core.Prelude.Results.{ok, raised, Failure}
use specora_core.Healer.Queue.{
  empty_db, consume_token_nonce, is_consumed, claim_next, claim_row, next_row,
}
use specora_core.Healer.Queue.Tokens.{Call, claims, perform_all, perform}
use specora_core.Healer.Pipeline.Approval.{IsOpen, decide}
use specora_core.Healer.Tests.{setup, world}
use specora_core.Healer.Security.{
  Actor, text_at, candidate_tokens, as_claims, audit_id, b64d, b64e, check_claims, check_expiry,
  compare_digest, decoded, either, expiry, has_expired, is_text, pads, read_claims, says, sign,
  verify, verify_parts, issue, later, claims_of,
}
use specora_core.Healer.Security.Planes.{
  shipped, link_actor, authorize_control_plane, ask_chain, build_control_plane_chain,
  register_control_plane_authenticator, if_set, try_chain, signed_action_token, first_signed,
  approval_secret, looks_like_signed_token, or_else, resolve, verify_action_token,
}
use specora_core.Healer.Security.Tests.{
  unary_codec, first_link, second_link, unary, write, read_from,
}
use specora_core.Healer.RateLimit.Tests.{whole, limiter}
use specora_core.Healer.Server.Handlers.{IngestRequest, ingest}
use specora_core.Healer.Server.Admission.{IsAdmitted, IsRefused, ingest-IsAdmitted}
use specora_core.Healer.Server.{
  Request, Service, authorize, is_mutating, after_chain, authenticated, credentials, form_text,
  after_csrf, bearer, burn, check_csrf, is_form_post, needs_csrf, partition,
}
use specora_core.Healer.Server.Guards.{IsGuarded, authorize-IsGuarded}
use specora_core.Healer.Server.Links.{link_once}
use specora_core.Healer.Server.Decisions.{
  IsSameButNonces, IsIdle, approves, action_of, form_of, decision_of, handle, handle-gate,
}

abbrev service : Service
service = record {
  codec = unary_codec;
  registry = shipped unary_codec;
  env = ("SPECORA_HEALER_APPROVAL_SECRET", "key") ∷ ("SPECORA_HEALER_INGEST_TOKEN", "door") ∷ [];
  csrf_fallback = "fallback";
  setup = setup;
  parse_qsl = λ s. [];
}

abbrev with_link : String → Request
with_link link = record { headers = []; query = ("t", link) ∷ []; body = "" }

abbrev reporting : Request
reporting = record { headers = ("authorization", "bearer door") ∷ []; query = []; body = "" }

abbrev report : IngestRequest
report = record {
  source = "runtime";
  contract_fqn = some "entity/it/incident";
  error = "boom";
  stacktrace = some "line 1";
  context = none;
}

ingest-IsAdmitted_example :
    IsAdmitted whole service reporting report "t3" "11:00" 11 world limiter
      (ingest whole service reporting report "t3" "11:00" 11 (world, limiter)).0
      (ingest whole service reporting report "t3" "11:00" 11 (world, limiter)).1.0
    ⊎ IsRefused world
        (ingest whole service reporting report "t3" "11:00" 11 (world, limiter)).0
        (ingest whole service reporting report "t3" "11:00" 11 (world, limiter)).1.0
ingest-IsAdmitted_example =
    ingest-IsAdmitted whole service reporting report "t3" "11:00" 11 world limiter

abbrev first_actor : Actor
first_actor = record {
  kind = "approval_link";
  id = "ann";
  scope = some ("t1", "approve");
  nonce = "n1";
}

abbrev second_actor : Actor
second_actor = record {
  kind = "approval_link";
  id = "link";
  scope = some ("t2", "reject");
  nonce = "n2";
}

first_authorized :
    (authorize service (with_link first_link) "t1" "approve" none 50 "10:00" empty_db).0
    ≡ ok first_actor
unfolding authorize after_chain authenticated authorize_control_plane ask_chain
    build_control_plane_chain shipped register_control_plane_authenticator put if_set text_at lookup
    try_chain signed_action_token first_signed candidate_tokens credentials form_text
    consume_token_nonce is_consumed approval_secret link_actor looks_like_signed_token or_else
    resolve verify_action_token as_claims audit_id b64d b64e check_claims check_expiry
    compare_digest decoded either expiry has_expired is_text pads read_claims rstrip says sign
    verify verify_parts after_csrf bearer burn check_csrf is_form_post is_mutating needs_csrf
    partition get truthy every push size split_by starts_with issue later claims_of unary write
    read_from
first_authorized = refl

approve_mutates : is_mutating "approve" ≡ true
unfolding is_mutating
approve_mutates = refl

reject_mutates : is_mutating "reject" ≡ true
unfolding is_mutating
reject_mutates = refl

abbrev calls : List Call
calls = claims ∷ []

second_authorized :
    (authorize service (with_link second_link) "t2" "reject" none 60 "10:05" (
      perform_all calls
        (authorize service (with_link first_link) "t1" "approve" none 50 "10:00" empty_db).1)).0
    ≡ ok second_actor
unfolding authorize after_chain authenticated authorize_control_plane ask_chain
    build_control_plane_chain shipped register_control_plane_authenticator put if_set text_at lookup
    try_chain signed_action_token first_signed candidate_tokens credentials form_text
    consume_token_nonce is_consumed approval_secret link_actor looks_like_signed_token or_else
    resolve verify_action_token as_claims audit_id b64d b64e check_claims check_expiry
    compare_digest decoded either expiry has_expired is_text pads read_claims rstrip says sign
    verify verify_parts after_csrf bearer burn check_csrf is_form_post is_mutating needs_csrf
    partition get truthy every push size split_by starts_with issue later claims_of unary write
    read_from perform claim_next claim_row next_row perform_all
second_authorized = refl

link_once_example : ◌≢◌ {A = String} "n2" "n1"
link_once_example =
    link_once service (with_link first_link) (with_link second_link) "t1" "t2" "approve" "reject"
      none none 50 60 "10:00" "10:05" empty_db calls first_actor second_actor approve_mutates
      reject_mutates first_authorized (λ h. absurd (cc ((eq_iff "n1" "").1 h))) second_authorized

authorize-IsGuarded_example :
    ((actor : Actor) × ((authorize service
          (with_link first_link)
          "t1"
          "approve"
          none
          50
          "10:00"
          empty_db).0
        ≡ ok actor)
      × IsGuarded service
          (with_link first_link)
          "t1"
          "approve"
          none
          50
          "10:00"
          actor
          empty_db
          (authorize service (with_link first_link) "t1" "approve" none 50 "10:00" empty_db).1)
    ⊎ ((e : Failure) × ((authorize service
            (with_link first_link)
            "t1"
            "approve"
            none
            50
            "10:00"
            empty_db).0
          ≡ raised e)
        × ((authorize service (with_link first_link) "t1" "approve" none 50 "10:00" empty_db).1
            ≡ empty_db))
authorize-IsGuarded_example =
    authorize-IsGuarded service (with_link first_link) "t1" "approve" none 50 "10:00" empty_db
      approve_mutates

handle-gate_example :
    IsSameButNonces world.db
      (authorize service
        (with_link first_link)
        "t1"
        (action_of approves)
        (form_of service (with_link first_link) approves)
        50
        "10:00"
        world.db).1
    × (IsIdle
            (authorize service
              (with_link first_link)
              "t1"
              (action_of approves)
              (form_of service (with_link first_link) approves)
              50
              "10:00"
              world.db).0
            "t1"
            (authorize service
              (with_link first_link)
              "t1"
              (action_of approves)
              (form_of service (with_link first_link) approves)
              50
              "10:00"
              world.db).1
          × ((handle service (with_link first_link) approves "t1" 50 "10:00" world).1
              ≡ record world {
                db =
                    (authorize service
                      (with_link first_link)
                      "t1"
                      (action_of approves)
                      (form_of service (with_link first_link) approves)
                      50
                      "10:00"
                      world.db).1;
              })
        ⊎ ((actor : Actor) × ((authorize service
                (with_link first_link)
                "t1"
                (action_of approves)
                (form_of service (with_link first_link) approves)
                50
                "10:00"
                world.db).0
              ≡ ok actor)
            × IsOpen "t1"
                (authorize service
                  (with_link first_link)
                  "t1"
                  (action_of approves)
                  (form_of service (with_link first_link) approves)
                  50
                  "10:00"
                  world.db).1
            × ((handle service (with_link first_link) approves "t1" 50 "10:00" world).1
                ≡ (decide setup "t1" (decision_of approves actor "10:00") (record world {
                  db =
                      (authorize service
                        (with_link first_link)
                        "t1"
                        (action_of approves)
                        (form_of service (with_link first_link) approves)
                        50
                        "10:00"
                        world.db).1;
                })).1)))
handle-gate_example = handle-gate service (with_link first_link) approves "t1" 50 "10:00" world
