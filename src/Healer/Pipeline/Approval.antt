-- ===== src/Healer/Pipeline/Approval.antt =====
-- Approving and rejecting (`approve_ticket` and `reject_ticket` of healer/pipeline.py).
use specora_core.Prelude.{
  String, ◌≡◌, refl, sym, ◌∙◌, ap, subst, Bool, true, false, Option, none, some, some-injective,
  List, [], ◌∷◌, ◌⊎◌, inl, inr, arith, ◌==◌, eq_iff, Bool-cases, if◌then◌else◌, All,
}
use specora_core.Prelude.Options.{Option-cases}
use specora_core.Healer.Applier.{glue}
use specora_core.Healer.Models.{
  HealerTicket, TicketStatus, status_value, status_of, proposed, approved, applied, failed,
  rejected,
}
use specora_core.Healer.Models.RoundTrip.{status_of-value}
use specora_core.Healer.Queue.{Row, Db, row_at, get_ticket, update_status, with_status}
use specora_core.Healer.Queue.Rows.{
  IsTable, Parts, ticket_of, row_to_ticket-Parts, update_status-IsTable, get_at,
}
use specora_core.Healer.Pipeline.{
  Setup, World, notify, set_status, apply_and_notify, returned, approve_ticket, reject_ticket,
  is_proposed,
}
use specora_core.Healer.Pipeline.Settling.{apply_and_notify-ends}
use specora_core.Healer.Pipeline.Edits.{update_at-found}

-- A decision on a ticket: the actor and the clock's text, and a reason to reject.
pub data Decision : Type 0 where
  approval : String → String → Decision
  rejection : String → String → String → Decision

unfoldable pub decide : Setup → String → Decision → World → Option Bool × World
decide S i (approval actor now) w = approve_ticket S i actor now w
decide S i (rejection reason actor now) w = reject_ticket i reason actor now w

row_at-id : (i : String) (rows : List Row) (r : Row) → row_at i rows ≡ some r → r.id ≡ i
unfolding row_at
row_at-id i [] r h = absurd (cc h)
row_at-id i (s ∷ rs) r h = elim (Bool-cases (s.id == i)) [
  | inl e ↦ grind (arith, e, h, eq_iff s.id i)
  | inr e ↦ row_at-id i rs r (rw (e, row_at) at h)
]

All-row_at :
    (i : String) (rows : List Row) (r : Row) → All Parts rows → row_at i rows ≡ some r → Parts r
unfolding row_at
All-row_at i [] r a h = absurd (cc h)
All-row_at i (s ∷ rs) r a h = elim (Bool-cases (s.id == i)) [
  | inl e ↦ subst Parts (some-injective s r (rw (e, row_at) at h)) a.0
  | inr e ↦ All-row_at i rs r a.1 (rw (e, row_at) at h)
]

-- A row whose status is not 'proposed' reads as a ticket that is not PROPOSED.
IsDecided : String → Db → Type 0
IsDecided i db =
    (t : HealerTicket) × (get_ticket db i ≡ some (some t)) × (is_proposed t.status ≡ false)

IsDecided-row :
    (i : String) (db : Db) (r : Row) (s : TicketStatus)
    → IsTable db.tickets
    → row_at i db.tickets ≡ some r
    → r.status ≡ status_value s
    → is_proposed s ≡ false
    → IsDecided i db
unfolding IsDecided
IsDecided-row i db r s a h k l =
    let p = All-row_at i db.tickets r a.rows_read h in
    let same =
      some-injective p.status s (sym p.status_reads ∙ ap status_of k ∙ status_of-value s) in
    (ticket_of r p, get_at db i r (ticket_of r p) h (row_to_ticket-Parts r p), rw same l)

decide-IsDecided :
    (S : Setup) (i : String) (d : Decision) (w : World)
    → IsDecided i w.db
    → decide S i d w ≡ (some false, w)
unfolding decide approve_ticket reject_ticket IsDecided
decide-IsDecided S i (approval actor now) w (t, h, k) = ground (arith, h, k)
decide-IsDecided S i (rejection reason actor now) w (t, h, k) = ground (arith, h, k)

missing : (i : String) (db : Db) → row_at i db.tickets ≡ none → get_ticket db i ≡ some none
unfolding get_ticket
missing i db e = ground (arith, e)

ticket_row :
    (i : String) (db : Db) (t : HealerTicket)
    → IsTable db.tickets
    → get_ticket db i ≡ some (some t)
    → (r : Row) × (row_at i db.tickets ≡ some r) × (t.id ≡ i)
ticket_row i db t a h = elim (Option-cases (row_at i db.tickets)) [
  | inl e ↦ absurd (cc (h, missing i db e))
  | inr (r, e) ↦
      let p = All-row_at i db.tickets r a.rows_read e in
      let same = some-injective t (ticket_of r p) (
        some-injective (some t) (some (ticket_of r p))
          (sym h ∙ get_at db i r (ticket_of r p) e (row_to_ticket-Parts r p))) in
      (r, e, ap (λ (x : HealerTicket). x.id) same ∙ row_at-id i db.tickets r e)
]

-- The ticket's row holds a final status and the table is as it should be.
updated-IsDecided :
    (i : String) (s : TicketStatus) (note now : String) (db : Db) (r : Row)
    → IsTable db.tickets
    → row_at i db.tickets ≡ some r
    → is_proposed s ≡ false
    → IsDecided i (update_status i s note now db)
unfolding update_status with_status
updated-IsDecided i s note now db r a h k =
    IsDecided-row i (update_status i s note now db) (with_status s note now r) s
      (update_status-IsTable i s note now db a)
      (update_at-found i (with_status s note now) db.tickets (λ x. refl) r h) refl k

approved-IsDecided :
    (S : Setup) (t : HealerTicket) (actor now : String) (w : World) (r : Row)
    → IsTable w.db.tickets
    → row_at t.id w.db.tickets ≡ some r
    → (apply_and_notify S t actor now w).0 ≡ true
    → IsDecided t.id (apply_and_notify S t actor now w).1.db
unfolding is_proposed
approved-IsDecided S t actor now w r a h ran = elim (apply_and_notify-ends S t actor now w) [
  | inl (_, d) ↦ rw d.status (updated-IsDecided t.id applied d.note now w.db r a h refl)
  | inr (inl (_, (note, e, f))) ↦ rw e (updated-IsDecided t.id failed note now w.db r a h refl)
  | inr (inr (e, d)) ↦ absurd (cc (ran, e))
]

approve-IsDecided :
    (S : Setup) (t : HealerTicket) (i actor now : String) (w : World) (r : Row)
    → IsTable w.db.tickets
    → row_at i w.db.tickets ≡ some r
    → t.id ≡ i
    → (apply_and_notify S t actor now (set_status i approved "" now w)).0 ≡ true
    → IsDecided i (apply_and_notify S t actor now (set_status i approved "" now w)).1.db
unfolding set_status update_status with_status
approve-IsDecided S t i actor now w r a h k ran =
    subst
      (λ (j : String).
        IsDecided j (apply_and_notify S t actor now (set_status i approved "" now w)).1.db)
      k
      (approved-IsDecided S t actor now (set_status i approved "" now w)
        (with_status approved "" now r) (update_status-IsTable i approved "" now w.db a)
        (rw k (update_at-found i (with_status approved "" now) w.db.tickets (λ x. refl) r h)) ran)

proposed_of : (s : TicketStatus) → is_proposed s ≡ true → s ≡ proposed
unfolding is_proposed
proposed_of TicketStatus.queued h = absurd (cc h)
proposed_of TicketStatus.analyzing h = absurd (cc h)
proposed_of proposed h = refl
proposed_of approved h = absurd (cc h)
proposed_of applied h = absurd (cc h)
proposed_of failed h = absurd (cc h)
proposed_of rejected h = absurd (cc h)

only_proposed :
    (S : Setup) (i : String) (d : Decision) (w : World)
    → (decide S i d w).0 ≡ some true
    → (t : HealerTicket) × (get_ticket w.db i ≡ some (some t)) × (is_proposed t.status ≡ true)
unfolding decide approve_ticket reject_ticket IsDecided
only_proposed S i d w h = elim (Option-cases (get_ticket w.db i)) [
  | inl e ↦ absurd (elim d [
    | approval actor now ↦ ground (arith, e, h)
    | rejection reason actor now ↦ ground (arith, e, h)
  ])
  | inr (none, e) ↦ absurd (elim d [
    | approval actor now ↦ ground (arith, e, h)
    | rejection reason actor now ↦ ground (arith, e, h)
  ])
  | inr (some t, e) ↦ elim (Bool-cases (is_proposed t.status)) [
    | inl f ↦ (t, e, f)
    | inr f ↦ absurd (cc (h, decide-IsDecided S i d w (t, e, f)))
  ]
]

returned-world : (p : Bool × World) → (returned p).1 ≡ p.1
unfolding returned
returned-world (true, w) = refl
returned-world (false, w) = refl

returned-true : (p : Bool × World) → (returned p).0 ≡ some true → p.0 ≡ true
unfolding returned
returned-true (true, w) h = refl
returned-true (false, w) h = cc

IsDecided-after :
    (S : Setup) (i : String) (d : Decision) (w : World) (t : HealerTicket)
    → IsTable w.db.tickets
    → get_ticket w.db i ≡ some (some t)
    → is_proposed t.status ≡ true
    → (decide S i d w).0 ≡ some true
    → IsDecided i (decide S i d w).1.db
unfolding decide approve_ticket reject_ticket notify set_status is_proposed
IsDecided-after S i (approval actor now) w t a h k d =
    let (r, e, f) = ticket_row i w.db t a h in
    let who = if actor == "" then "unattributed" else actor in
    let p = apply_and_notify S t who now (set_status i approved "" now w) in
    rw (h, k, approve_ticket)
      (subst (λ (x : World). IsDecided i x.db) (sym (returned-world p))
        (approve-IsDecided S t i who now w r a e f
          (returned-true p (rw (h, k, approve_ticket) at d))))
IsDecided-after S i (rejection reason actor now) w t a h k d =
    let (r, e, f) = ticket_row i w.db t a h in
    rw (h, k, reject_ticket)
      (updated-IsDecided i rejected
        (if actor == "" then reason else glue reason (glue " (rejected by " (glue actor ")"))) now
        w.db r a e refl)

-- A ticket is decided on once: after an approval or a rejection that returned True, every further
-- approval and rejection of it, by whoever, returns False and leaves the database, the disk and the
-- log as they are. The ticket table is as the queue keeps it.
pub decide_once :
    (S : Setup) (i : String) (d e : Decision) (w : World)
    → IsTable w.db.tickets
    → (decide S i d w).0 ≡ some true
    → decide S i e (decide S i d w).1 ≡ (some false, (decide S i d w).1)
decide_once S i d e w a h =
    let (t, f, g) = only_proposed S i d w h in
    decide-IsDecided S i e (decide S i d w).1 (IsDecided-after S i d w t a f g h)

-- The ticket is in the database and PROPOSED.
abbrev pub IsOpen : String → Db → Type 0
IsOpen i db = (t : HealerTicket) × (get_ticket db i ≡ some (some t)) × (t.status ≡ proposed)

not-IsOpen :
    (i : String) (db : Db) (t : HealerTicket)
    → get_ticket db i ≡ some (some t)
    → is_proposed t.status ≡ false
    → ¬ IsOpen i db
unfolding is_proposed
not-IsOpen i db t e f (u, g, h) =
    let same = some-injective t u (some-injective (some t) (some u) (sym e ∙ g)) in
    cc (sym f ∙ ap (λ (x : HealerTicket). is_proposed x.status) same ∙ ap is_proposed h)

-- An approval or a rejection finds the ticket PROPOSED, or it does not (no such ticket, another
-- status, or a row that does not read) and changes nothing.
pub decide-gate :
    (S : Setup) (i : String) (d : Decision) (w : World)
    → IsOpen i w.db ⊎ ((¬ IsOpen i w.db) × ((decide S i d w).1 ≡ w))
unfolding decide approve_ticket reject_ticket
decide-gate S i d w = elim (Option-cases (get_ticket w.db i)) [
  | inl e ↦ inr (
    λ (u, g, h). cc (e, g),
    elim d [
      | approval actor now ↦ ground (arith, e)
      | rejection reason actor now ↦ ground (arith, e)
    ],
  )
  | inr (none, e) ↦ inr (
    λ (u, g, h). cc (e, g),
    elim d [
      | approval actor now ↦ ground (arith, e)
      | rejection reason actor now ↦ ground (arith, e)
    ],
  )
  | inr (some t, e) ↦ elim (Bool-cases (is_proposed t.status)) [
    | inl f ↦ inl (t, e, proposed_of t.status f)
    | inr f ↦ inr (
      not-IsOpen i w.db t e f,
      elim d [
        | approval actor now ↦ ground (arith, e, f)
        | rejection reason actor now ↦ ground (arith, e, f)
      ],
    )
  ]
]
