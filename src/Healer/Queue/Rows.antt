-- ===== src/Healer/Queue/Rows.antt =====
-- Rows and tickets (healer/queue.py): every stored row reads back as a ticket, whatever the queue's
-- methods did, and what an enqueued ticket reads back as.
use specora_core.Prelude.{
  String, ◌≡◌, ◌≢◌, refl, sym, ◌∙◌, ap, subst, some-injective, false, Option, none, some, List, [],
  ◌∷◌, ◌++◌, arith, ◌==◌, eq_iff, if◌then◌else◌, mem, Distinct, Distinct-snoc, All, All-append,
  Bool-cases, inl, inr,
}
use specora_core.Prelude.Options.{Option-cases}
use specora_core.Json.{ℤ, Value, null, obj, Fields, truthy}
use specora_core.Healer.Models.{
  TicketStatus, TicketSource, Priority, HealerProposal, HealerTicket, source_of, status_of,
  priority_of, priority_order, proposal_dict, optional, analyzing, status_value,
}
use specora_core.Healer.Models.RoundTrip.{
  dumped, dumped_if, dumped_ticket, proposal_if, resolved_if, source_of-value, status_of-value,
  priority_of-value, proposal_if-dict, resolved_if-optional,
}
use specora_core.Healer.Queue.{
  Row, Db, row_of, row_to_ticket, row_at, update_at, enqueue, get_ticket, claimed, with_status,
  update_status, set_classification, set_proposal, is_final,
}

-- The value in the proposal column.
abbrev column : Option Fields → Value
column o = elim o [ none ↦ null | some d ↦ obj d ]

-- What the five checked columns of a row read as.
pub record Parts (r : Row) : Type 0 where
  pub proposal : Option HealerProposal
  pub source : TicketSource
  pub status : TicketStatus
  pub priority : Priority
  pub resolved_at : Option String
  pub proposal_reads : proposal_if (column r.proposal) ≡ some proposal
  pub source_reads : source_of r.source ≡ some source
  pub status_reads : status_of r.status ≡ some status
  pub priority_reads : priority_of r.priority ≡ some priority
  pub resolved_reads : resolved_if (optional r.resolved_at) ≡ some resolved_at
  pub in_order : r.priority_order ≡ priority_order priority

abbrev pub ticket_of : (r : Row) → Parts r → HealerTicket
ticket_of r p = record {
  id = r.id;
  source = p.source;
  contract_fqn = r.contract_fqn;
  error_type = r.error_type;
  raw_error = r.raw_error;
  context = r.context;
  status = p.status;
  tier = r.tier;
  priority = p.priority;
  proposal = p.proposal;
  created_at = r.created_at;
  resolved_at = p.resolved_at;
  resolution_note = r.resolution_note;
}

pub row_to_ticket-Parts : (r : Row) (p : Parts r) → row_to_ticket r ≡ some (ticket_of r p)
unfolding row_to_ticket
row_to_ticket-Parts r p =
    rw (p.proposal_reads, p.source_reads, p.status_reads, p.priority_reads, p.resolved_reads)

proposal_column :
    (o : Option HealerProposal)
    → proposal_if (column (elim o [ none ↦ none | some p ↦ some (proposal_dict p) ]))
      ≡ some (dumped_if o)
proposal_column none = proposal_if-dict none
proposal_column (some p) = proposal_if-dict (some p)

pub Parts-row_of : (t : HealerTicket) → t.resolved_at ≢ some "" → Parts (row_of t)
unfolding row_of
Parts-row_of t h = record {
  proposal = dumped_if t.proposal;
  source = t.source;
  status = t.status;
  priority = t.priority;
  resolved_at = t.resolved_at;
  proposal_reads = proposal_column t.proposal;
  source_reads = source_of-value t.source;
  status_reads = status_of-value t.status;
  priority_reads = priority_of-value t.priority;
  resolved_reads = resolved_if-optional t.resolved_at h;
  in_order = refl;
}

-- ------------------------------------------------------------------ a ticket comes back

row_at-append :
    (i : String) (rs : List Row) (r : Row)
    → row_at i rs ≡ none
    → row_at i (rs ++ r ∷ []) ≡ (if r.id == i then some r else none)
unfolding row_at
row_at-append i [] r h = refl
row_at-append i (s ∷ rs) r h = ground (arith, row_at-append i rs r)

row_at-append_ne :
    (i : String) (rs : List Row) (r : Row)
    → r.id == i ≡ false
    → row_at i (rs ++ r ∷ []) ≡ row_at i rs
unfolding row_at
row_at-append_ne i [] r h = rw h
row_at-append_ne i (s ∷ rs) r h = ground (arith, row_at-append_ne i rs r h)

row_of-id : (t : HealerTicket) → (row_of t).id ≡ t.id
unfolding row_of
row_of-id t = refl

pub get_at :
    (db : Db) (i : String) (r : Row) (t : HealerTicket)
    → row_at i db.tickets ≡ some r
    → row_to_ticket r ≡ some t
    → get_ticket db i ≡ some (some t)
unfolding get_ticket
get_at db i r t h k = rw (h, get_ticket, k)

-- A ticket whose id is new and whose resolution time is not the empty text is enqueued, and then read
-- back as it was, but for FieldChange objects of its proposal, which are read back as dictionaries;
-- every other ticket is read as before.
pub get-enqueue :
    (t : HealerTicket) (db : Db)
    → t.resolved_at ≢ some ""
    → row_at t.id db.tickets ≡ none
    → (db' : Db) × (enqueue t db ≡ some db')
      × (get_ticket db' t.id ≡ some (some (dumped_ticket t)))
      × ((i : String) → t.id == i ≡ false → get_ticket db' i ≡ get_ticket db i)
unfolding enqueue get_ticket Parts-row_of row_of
get-enqueue t db h fresh =
    let db' : Db = record db { tickets = db.tickets ++ row_of t ∷ [] } in
    let found : row_at t.id db'.tickets ≡ some (row_of t) =
      row_at-append t.id db.tickets (row_of t) fresh
      ∙ ground (arith, row_of-id t, eq_iff (row_of t).id t.id) in
    (
      db',
      rw (fresh, enqueue),
      get_at db' t.id (row_of t) (dumped_ticket t) found
          (row_to_ticket-Parts (row_of t) (Parts-row_of t h)),
      λ i n. rw (row_at-append_ne i db.tickets (row_of t) (rw (row_of-id t) n), get_ticket),
    )

-- ------------------------------------------------------------------ the table invariant

abbrev pub ids : List Row → List String
ids [] = []
ids (r ∷ rs) = r.id ∷ ids rs

-- No id stands twice, every row reads as a ticket, and the sort key is that of the priority.
pub record IsTable (rows : List Row) : Type 0 where
  pub ids_distinct : Distinct (ids rows)
  pub rows_read : All Parts rows

ids-update_at :
    (i : String) (f : Row → Row) (rs : List Row)
    → ((r : Row) → (f r).id ≡ r.id)
    → ids (update_at i f rs) ≡ ids rs
unfolding update_at
ids-update_at i f [] h = refl
ids-update_at i f (r ∷ rs) h = ground (arith, h r, ids-update_at i f rs h)

All-update_at :
    (i : String) (f : Row → Row) (rs : List Row)
    → ((r : Row) → Parts r → Parts (f r))
    → All Parts rs
    → All Parts (update_at i f rs)
unfolding update_at
All-update_at i f [] h a = tt
All-update_at i f (r ∷ rs) h a = (
  elim (Bool-cases (r.id == i)) [ inl e ↦ rw e (h r a.0) | inr e ↦ rw e a.0 ],
  All-update_at i f rs h a.1,
)

pub update_at-IsTable :
    (i : String) (f : Row → Row) (rs : List Row)
    → ((r : Row) → (f r).id ≡ r.id)
    → ((r : Row) → Parts r → Parts (f r))
    → IsTable rs
    → IsTable (update_at i f rs)
update_at-IsTable i f rs h k t = record {
  ids_distinct = subst Distinct (sym (ids-update_at i f rs h)) t.ids_distinct;
  rows_read = All-update_at i f rs k t.rows_read;
}

pub Parts-claimed : (r : Row) → Parts r → Parts (claimed r)
Parts-claimed r p = record {
  proposal = p.proposal;
  source = p.source;
  status = analyzing;
  priority = p.priority;
  resolved_at = p.resolved_at;
  proposal_reads = p.proposal_reads;
  source_reads = p.source_reads;
  status_reads = unfold status_value in status_of-value analyzing;
  priority_reads = p.priority_reads;
  resolved_reads = p.resolved_reads;
  in_order = p.in_order;
}

-- Any stored resolution time reads, the empty text as None.
resolved_reads_any : (o : Option String) → (x : Option String) × (resolved_if (optional o) ≡ some x)
unfolding resolved_if truthy
resolved_reads_any none = (none, refl)
resolved_reads_any (some s) = elim (Bool-cases (s == "")) [
  | inl e ↦ (none, rw e)
  | inr e ↦ (some s, rw e)
]

Parts-with_status :
    (s : TicketStatus) (note now : String) (r : Row) → Parts r → Parts (with_status s note now r)
unfolding with_status
Parts-with_status s note now r p =
    let (x, e) = resolved_reads_any (if is_final s then some now else r.resolved_at) in
    record {
      proposal = p.proposal;
      source = p.source;
      status = s;
      priority = p.priority;
      resolved_at = x;
      proposal_reads = p.proposal_reads;
      source_reads = p.source_reads;
      status_reads = status_of-value s;
      priority_reads = p.priority_reads;
      resolved_reads = e;
      in_order = p.in_order;
    }

pub update_status-IsTable :
    (i : String) (s : TicketStatus) (note now : String) (db : Db)
    → IsTable db.tickets
    → IsTable (update_status i s note now db).tickets
unfolding update_status
update_status-IsTable i s note now db h =
    update_at-IsTable i (with_status s note now) db.tickets (unfold with_status in λ r. refl)
      (Parts-with_status s note now) h

pub set_classification-IsTable :
    (i error_type : String) (tier : ℤ) (priority : Priority) (db : Db)
    → IsTable db.tickets
    → IsTable (set_classification i error_type tier priority db).tickets
unfolding set_classification
set_classification-IsTable i e tier q db h =
    update_at-IsTable i _ db.tickets (λ r. refl)
      (λ r p. record {
        proposal = p.proposal;
        source = p.source;
        status = p.status;
        priority = q;
        resolved_at = p.resolved_at;
        proposal_reads = p.proposal_reads;
        source_reads = p.source_reads;
        status_reads = p.status_reads;
        priority_reads = priority_of-value q;
        resolved_reads = p.resolved_reads;
        in_order = refl;
      })
      h

pub set_proposal-IsTable :
    (i : String) (p : HealerProposal) (db : Db)
    → IsTable db.tickets
    → IsTable (set_proposal i p db).tickets
unfolding set_proposal
set_proposal-IsTable i q db h =
    update_at-IsTable i _ db.tickets (λ r. refl)
      (λ r p. record {
        proposal = some (dumped q);
        source = p.source;
        status = p.status;
        priority = p.priority;
        resolved_at = p.resolved_at;
        proposal_reads = proposal_if-dict (some q);
        source_reads = p.source_reads;
        status_reads = p.status_reads;
        priority_reads = p.priority_reads;
        resolved_reads = p.resolved_reads;
        in_order = p.in_order;
      })
      h

ids-append : (rs : List Row) (r : Row) → ids (rs ++ r ∷ []) ≡ ids rs ++ r.id ∷ []
ids-append [] r = refl
ids-append (s ∷ rs) r = ap (λ (xs : List String). s.id ∷ xs) (ids-append rs r)

mem-ids : (i : String) (rs : List Row) → row_at i rs ≡ none → mem i (ids rs) ≡ false
unfolding row_at mem
mem-ids i [] h = refl
mem-ids i (r ∷ rs) h = ground (arith, mem-ids i rs)

-- `enqueue` keeps the table invariant: no id twice, and every stored row reads back as a ticket. The
-- ticket's resolution time is not the empty text, and its id is new (no exception).
pub enqueue-IsTable :
    (t : HealerTicket) (db : Db) {db' : Db}
    → t.resolved_at ≢ some ""
    → enqueue t db ≡ some db'
    → IsTable db.tickets
    → IsTable db'.tickets
unfolding enqueue
enqueue-IsTable t db {db'} n e h = elim (Option-cases (row_at t.id db.tickets)) [
  | inr (r, f) ↦ absurd (cc (rw (f, enqueue) at e))
  | inl f ↦
      subst (λ (d : Db). IsTable d.tickets) (some-injective _ _ (rw (f, enqueue) at e))
        (record {
          ids_distinct =
              rw (ids-append db.tickets (row_of t), row_of-id t)
                (Distinct-snoc t.id (ids db.tickets) h.ids_distinct (mem-ids t.id db.tickets f));
          rows_read =
              All-append Parts db.tickets (row_of t ∷ []) h.rows_read (Parts-row_of t n, tt);
        })
]
