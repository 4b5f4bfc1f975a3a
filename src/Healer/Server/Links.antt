-- ===== src/Healer/Server/Links.antt =====
-- An approval link works once (healer/api/server.py and healer/queue.py together).
use specora_core.Prelude.{
  ℕ, String, ◌≡◌, ◌≢◌, refl, sym, ◌∙◌, ap, subst, Bool, true, false, Option, List, inl, inr, Dict,
}
use specora_core.Prelude.Results.{ok, ok-injective}
use specora_core.Healer.Queue.{Db, is_consumed, consume_token_nonce}
use specora_core.Healer.Queue.Tokens.{Call, perform_all, nonce_single_use}
use specora_core.Healer.Security.{Actor, audit_id}
use specora_core.Healer.Server.{Request, Service, is_mutating, authorize}
use specora_core.Healer.Server.Guards.{IsSpent, authorize-IsGuarded}

consume-fresh :
    (n i action by stamp : String) (db : Db)
    → is_consumed n db.consumed_tokens ≡ false
    → (consume_token_nonce n i action by stamp db).0 ≡ true
unfolding consume_token_nonce
consume-fresh n i action by stamp db h = rw h refl

authorized-IsSpent :
    (S : Service) (r : Request) (i action : String) (form : Option (Dict String)) (now : ℕ)
    (stamp : String) (db : Db) (actor : Actor)
    → is_mutating action ≡ true
    → (authorize S r i action form now stamp db).0 ≡ ok actor
    → IsSpent i action stamp actor db (authorize S r i action form now stamp db).1
authorized-IsSpent S r i action form now stamp db actor m h =
    elim (authorize-IsGuarded S r i action form now stamp db m) [
      | inl (b, e, g) ↦
          subst
            (λ (x : Actor).
              IsSpent i action stamp x db (authorize S r i action form now stamp db).1)
            (ok-injective b actor (sym e ∙ h)) g.spent
      | inr (e, f, g) ↦ absurd (cc (h, f))
    ]

-- After a mutating request was authorized by a link, with whatever other uses of the queue between,
-- no mutating request at any time, for any ticket and action, is authorized by a credential with the
-- link's nonce.
pub link_once :
    (S : Service) (r r' : Request) (i i' action action' : String)
    (form form' : Option (Dict String)) (now now' : ℕ) (stamp stamp' : String) (db : Db)
    (calls : List Call) (actor actor' : Actor)
    → is_mutating action ≡ true
    → is_mutating action' ≡ true
    → (authorize S r i action form now stamp db).0 ≡ ok actor
    → actor.nonce ≢ ""
    → let later : Db = perform_all calls (authorize S r i action form now stamp db).1 in
      (authorize S r' i' action' form' now' stamp' later).0 ≡ ok actor' → actor'.nonce ≢ actor.nonce
link_once S r r' i i' action action' form form' now now' stamp stamp' db calls actor actor' m m' h n
      h' same =
    let later : Db = perform_all calls (authorize S r i action form now stamp db).1 in
    elim (authorized-IsSpent S r i action form now stamp db actor m h) [
      | inl (e, f) ↦ n e
      | inr (e, f) ↦
          let refused =
            nonce_single_use actor.nonce i action (audit_id actor) stamp i' action'
              (audit_id actor') stamp' calls db in
          elim (authorized-IsSpent S r' i' action' form' now' stamp' later actor' m' h') [
            | inl (g, k) ↦ n (sym same ∙ g)
            | inr (g, k) ↦
                let fresh =
                  consume-fresh actor.nonce i' action' (audit_id actor') stamp' later
                    (subst (λ (n : String). is_consumed n later.consumed_tokens ≡ false) same g) in
                let moved =
                  subst
                    (λ (d : Db).
                      (consume_token_nonce actor.nonce i' action' (audit_id actor') stamp'
                        (perform_all calls d)).0
                      ≡ true)
                    f fresh in
                cc (moved, ap (λ (p : Bool × Db). p.0) refused)
          ]
    ]
