-- ===== src/Healer/Queue/Listing.antt =====
-- What `list_tickets` and `stats` of healer/queue.py return.
use specora_core.Prelude.{
  ℕ, suc, ◌+◌, String, ◌≡◌, refl, sym, ◌∙◌, ap, some-injective, Bool, true, false, ◌⊎◌, Option,
  none, some, ltb, text_lt, List, [], ◌∷◌, arith, ◌==◌, eq_iff, if◌then◌else◌, length, select, All,
  Bool-cases, inl, inr,
}
use mathlib.Core.List.Perm
use mathlib.Core.List.{Perm}
use specora_core.Healer.Models.{TicketStatus, Priority, status_value, priority_value}
use specora_core.Healer.Queue.{
  Row, Db, precedes, insert_row, sort_rows, wanted_row, equals, given, list_rows, tally, by_status,
  total, stats,
}
use specora_core.Healer.Queue.Claims.{precedes_trans, precedes_asym}

-- No row stands behind one that it precedes.
abbrev IsOrdered : List Row → Type 0
IsOrdered [] = Unit
IsOrdered (r ∷ rs) = All (λ s. precedes s r ≡ false) rs × IsOrdered rs

insert_row-All :
    (r x : Row) (rs : List Row)
    → precedes r x ≡ false
    → All (λ s. precedes s x ≡ false) rs
    → All (λ s. precedes s x ≡ false) (insert_row r rs)
unfolding insert_row
insert_row-All r x [] h a = (h, tt)
insert_row-All r x (s ∷ rs) h a = elim (Bool-cases (precedes s r)) [
  | inl e ↦ rw e (a.0, insert_row-All r x rs h a.1)
  | inr e ↦ rw e (h, a)
]

behind-All :
    (r s : Row) (rs : List Row)
    → precedes s r ≡ false
    → All (λ t. precedes t s ≡ false) rs
    → All (λ t. precedes t r ≡ false) rs
behind-All r s [] h a = tt
behind-All r s (t ∷ rs) h a = (precedes_trans t s r a.0 h, behind-All r s rs h a.1)

insert_row-IsOrdered : (r : Row) (rs : List Row) → IsOrdered rs → IsOrdered (insert_row r rs)
unfolding insert_row
insert_row-IsOrdered r [] h = (tt, tt)
insert_row-IsOrdered r (s ∷ rs) h = elim (Bool-cases (precedes s r)) [
  | inl e ↦ rw e (insert_row-All r s rs (precedes_asym s r e) h.0, insert_row-IsOrdered r rs h.1)
  | inr e ↦ rw e ((e, behind-All r s rs e h.0), h)
]

sort_rows-IsOrdered : (rs : List Row) → IsOrdered (sort_rows rs)
unfolding sort_rows
sort_rows-IsOrdered [] = tt
sort_rows-IsOrdered (r ∷ rs) = insert_row-IsOrdered r (sort_rows rs) (sort_rows-IsOrdered rs)

insert_row-perm : (r : Row) (rs : List Row) → Perm (insert_row r rs) (r ∷ rs)
unfolding insert_row
insert_row-perm r [] = Perm.refl (r ∷ [])
insert_row-perm r (s ∷ rs) = elim (Bool-cases (precedes s r)) [
  | inl e ↦ rw e (Perm.trans (Perm.cons s (insert_row-perm r rs)) (Perm.swap r s rs))
  | inr e ↦ rw e (Perm.refl (r ∷ s ∷ rs))
]

sort_rows-perm : (rs : List Row) → Perm (sort_rows rs) rs
unfolding sort_rows
sort_rows-perm [] = Perm.refl []
sort_rows-perm (r ∷ rs) =
    Perm.trans (insert_row-perm r (sort_rows rs)) (Perm.cons r (sort_rows-perm rs))

-- A row comes behind another one: it is less urgent, or as urgent and not older.
abbrev pub IsBehind : Row → Row → Type 0
IsBehind r s =
    (ltb r.priority_order s.priority_order ≡ true)
    ⊎ ((r.priority_order ≡ s.priority_order) × (text_lt s.created_at r.created_at ≡ false))

abbrev pub IsSorted : List Row → Type 0
IsSorted [] = Unit
IsSorted (r ∷ rs) = All (λ s. IsBehind r s) rs × IsSorted rs

precedes-IsBehind : (r s : Row) → precedes s r ≡ false → IsBehind r s
unfolding precedes
precedes-IsBehind r s h = elim (Bool-cases (ltb r.priority_order s.priority_order)) [
  | inl e ↦ inl e
  | inr e ↦ inr (ground arith, ground arith)
]

precedes-All :
    (r : Row) (rs : List Row) → All (λ s. precedes s r ≡ false) rs → All (λ s. IsBehind r s) rs
precedes-All r [] h = tt
precedes-All r (s ∷ rs) h = (precedes-IsBehind r s h.0, precedes-All r rs h.1)

IsOrdered-IsSorted : (rs : List Row) → IsOrdered rs → IsSorted rs
IsOrdered-IsSorted [] h = tt
IsOrdered-IsSorted (r ∷ rs) h = (precedes-All r rs h.0, IsOrdered-IsSorted rs h.1)

-- A row passes the filters: each is left out (the name also as the empty text) or is the row's own
-- value.
pub record Matches (status : Option TicketStatus) (priority : Option Priority) (fqn : Option String)
    (r : Row) : Type 0 where
  pub status_matches :
      (status ≡ none) ⊎ ((s : TicketStatus) × (status ≡ some s) × (r.status ≡ status_value s))
  pub priority_matches :
      (priority ≡ none) ⊎ ((p : Priority) × (priority ≡ some p) × (r.priority ≡ priority_value p))
  pub fqn_matches :
      (fqn ≡ none) ⊎ (fqn ≡ some "") ⊎ ((s : String) × (fqn ≡ some s) × (r.contract_fqn ≡ fqn))

-- The rows of a table that satisfy a predicate, in the table's order.
pub data IsSelection (P : Row → Type 0) : List Row → List Row → Type 0 where
  done : IsSelection P [] []
  kept : {r : Row} {rs ks : List Row} → P r → IsSelection P rs ks → IsSelection P (r ∷ rs) (r ∷ ks)
  left_out : {r : Row} {rs ks : List Row} → ¬ P r → IsSelection P rs ks → IsSelection P (r ∷ rs) ks

abbrev Reflects : Type 0 → Bool → Type 0
Reflects P b = ((b ≡ true) × P) ⊎ ((b ≡ false) × (¬ P))

status-Reflects :
    (o : Option TicketStatus) (v : String)
    → Reflects
        ((o ≡ none) ⊎ ((s : TicketStatus) × (o ≡ some s) × (v ≡ status_value s)))
        (equals (elim o [ none ↦ none | some s ↦ some (status_value s) ]) (some v))
status-Reflects none v = inl (refl, inl refl)
status-Reflects (some s) v = elim (Bool-cases (v == status_value s)) [
  | inl e ↦ inl (e, inr (s, refl, (eq_iff v (status_value s)).0 e))
  | inr e ↦ inr (
    e,
    λ h. elim h [
      | inl k ↦ cc k
      | inr (t, k, l) ↦
          cc (e, (eq_iff v (status_value s)).1 (l ∙ ap status_value (sym (some-injective s t k))))
    ],
  )
]

priority-Reflects :
    (o : Option Priority) (v : String)
    → Reflects
        ((o ≡ none) ⊎ ((p : Priority) × (o ≡ some p) × (v ≡ priority_value p)))
        (equals (elim o [ none ↦ none | some p ↦ some (priority_value p) ]) (some v))
priority-Reflects none v = inl (refl, inl refl)
priority-Reflects (some p) v = elim (Bool-cases (v == priority_value p)) [
  | inl e ↦ inl (e, inr (p, refl, (eq_iff v (priority_value p)).0 e))
  | inr e ↦ inr (
    e,
    λ h. elim h [
      | inl k ↦ cc k
      | inr (q, k, l) ↦
          cc (
            e,
            (eq_iff v (priority_value p)).1 (l ∙ ap priority_value (sym (some-injective p q k))),
          )
    ],
  )
]

named-Reflects :
    (s : String) (v : Option String)
    → s == "" ≡ false
    → Reflects
        ((some s ≡ none) ⊎ (some s ≡ some "") ⊎ ((t : String) × (some s ≡ some t) × (v ≡ some s)))
        (equals (some s) v)
named-Reflects s none e = inr (
  refl,
  λ h. elim h [
    | inl k ↦ cc k
    | inr (inl k) ↦ cc (e, (eq_iff s "").1 (some-injective s "" k))
    | inr (inr (t, k, l)) ↦ cc l
  ],
)
named-Reflects s (some v) e = elim (Bool-cases (v == s)) [
  | inl f ↦ inl (f, inr (inr (s, refl, ap {B = Option String} some ((eq_iff v s).0 f))))
  | inr f ↦ inr (
    f,
    λ h. elim h [
      | inl k ↦ cc k
      | inr (inl k) ↦ cc (e, (eq_iff s "").1 (some-injective s "" k))
      | inr (inr (t, k, l)) ↦ cc (f, (eq_iff v s).1 (some-injective v s l))
    ],
  )
]

fqn-Reflects :
    (o v : Option String)
    → Reflects
        ((o ≡ none) ⊎ (o ≡ some "") ⊎ ((s : String) × (o ≡ some s) × (v ≡ o)))
        (equals (given o) v)
fqn-Reflects none v = inl (refl, inl refl)
fqn-Reflects (some s) v = elim (Bool-cases (s == "")) [
  | inl e ↦ inl (rw e refl, inr (inl (ap {B = Option String} some ((eq_iff s "").0 e))))
  | inr e ↦ rw e (named-Reflects s v e)
]

wanted_row-Reflects :
    (status : Option TicketStatus) (priority : Option Priority) (fqn : Option String) (r : Row)
    → Reflects (Matches status priority fqn r) (wanted_row status priority fqn r)
wanted_row-Reflects status priority fqn r = elim (status-Reflects status r.status) [
  | inr (e, h) ↦ inr (rw e refl, λ m. h m.status_matches)
  | inl (e, h) ↦ elim (priority-Reflects priority r.priority) [
    | inr (f, k) ↦ inr (rw (e, f) refl, λ m. k m.priority_matches)
    | inl (f, k) ↦ elim (fqn-Reflects fqn r.contract_fqn) [
      | inr (g, l) ↦ inr (rw (e, f, g) refl, λ m. l m.fqn_matches)
      | inl (g, l) ↦
          inl (
            rw (e, f, g) refl,
            record { status_matches = h; priority_matches = k; fqn_matches = l },
          )
    ]
  ]
]

select-IsSelection :
    (P : Row → Type 0) (p : Row → Bool)
    → ((r : Row) → Reflects (P r) (p r))
    → (rs : List Row) → IsSelection P rs (select p rs)
select-IsSelection P p h [] = done
select-IsSelection P p h (r ∷ rs) = elim (h r) [
  | inl (e, k) ↦ rw e (kept k (select-IsSelection P p h rs))
  | inr (e, k) ↦ rw e (left_out k (select-IsSelection P p h rs))
]

-- A listing holds exactly the rows of the table that match every filter given, each as often as the
-- table does, and in the order of priority and then of creation.
pub list_rows_lem :
    (status : Option TicketStatus) (priority : Option Priority) (fqn : Option String) (db : Db)
    → (rows : List Row) × IsSelection (Matches status priority fqn) db.tickets rows
      × Perm (list_rows status priority fqn db) rows
      × IsSorted (list_rows status priority fqn db)
unfolding list_rows
list_rows_lem status priority fqn db =
    let rows = select (wanted_row status priority fqn) db.tickets in
    (
      rows,
      select-IsSelection (Matches status priority fqn) (wanted_row status priority fqn)
          (wanted_row-Reflects status priority fqn) db.tickets,
      sort_rows-perm rows,
      IsOrdered-IsSorted (sort_rows rows) (sort_rows-IsOrdered rows),
    )

-- ------------------------------------------------------------------ stats

-- How many of the rows have a status.
unfoldable pub count_status : String → List Row → ℕ
count_status s [] = 0
count_status s (r ∷ rs) = if r.status == s then suc (count_status s rs) else count_status s rs

-- counts.get(s, 0)
unfoldable pub count_in : String → List (String × ℕ) → ℕ
count_in s [] = 0
count_in s ((k, n) ∷ d) = if k == s then n else count_in s d

total-tally : (s : String) (d : List (String × ℕ)) → total (tally s d) ≡ total d + 1
unfolding total tally
total-tally s [] = omega arith
total-tally s ((k, n) ∷ d) = ground (arith, total-tally s d)

count_in-tally :
    (s t : String) (d : List (String × ℕ))
    → count_in t (tally s d) ≡ (if s == t then count_in t d + 1 else count_in t d)
unfolding count_in tally
count_in-tally s t [] = ground arith
count_in-tally s t ((k, n) ∷ d) =
    ground (arith, count_in-tally s t d, eq_iff k s, eq_iff s t, eq_iff k t)

total-by_status : (rs : List Row) → total (by_status rs) ≡ length rs
unfolding by_status total
total-by_status [] = refl
total-by_status (r ∷ rs) = ground (arith, total-tally r.status (by_status rs), total-by_status rs)

count_in-by_status : (s : String) (rs : List Row) → count_in s (by_status rs) ≡ count_status s rs
unfolding by_status count_in count_status
count_in-by_status s [] = refl
count_in-by_status s (r ∷ rs) =
    ground (arith, count_in-tally r.status s (by_status rs), count_in-by_status s rs)

-- `stats` counts, for every status, the rows that have it, and its total is the number of tickets.
pub stats_lem :
    (db : Db) (s : String)
    → (count_in s (stats db).0 ≡ count_status s db.tickets) × ((stats db).1 ≡ length db.tickets)
unfolding stats
stats_lem db s = (count_in-by_status s db.tickets, total-by_status db.tickets)
