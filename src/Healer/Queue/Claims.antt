-- ===== src/Healer/Queue/Claims.antt =====
-- Claiming tickets (`claim_next` of healer/queue.py): the best queued ticket, and no ticket twice.
use specora_core.Prelude.{
  String, ◌≡◌, refl, sym, ◌∙◌, ap, subst, some-injective, Bool, true, false, ◌&&◌, Option, none,
  some, List, [], ◌∷◌, arith, ◌==◌, eq_iff, if◌then◌else◌, not, mem, Distinct, All, Bool-cases, inl,
  inr, ◌⊎◌,
}
use specora_core.Prelude.Options.{Option-cases}
use specora_core.Prelude.TextOrder.{text_le_trans, text_lt_asym}
use specora_core.Healer.Queue.{
  Row, row_at, update_at, precedes, is_queued, next_row, claimed, claim_row,
}
use specora_core.Healer.Queue.Rows.{ids, IsTable, update_at-IsTable, Parts-claimed}

pub precedes_trans :
    (r s t : Row) → precedes r s ≡ false → precedes s t ≡ false → precedes r t ≡ false
unfolding precedes
precedes_trans r s t h k = ground (arith, text_le_trans r.created_at s.created_at t.created_at)

pub precedes_asym : (r s : Row) → precedes r s ≡ true → precedes s r ≡ false
unfolding precedes
precedes_asym r s h = ground (arith, text_lt_asym r.created_at s.created_at)

-- No queued row of `rs` stands in front of `r`.
abbrev pub IsLeast : Row → List Row → Type 0
IsLeast r rs = All (λ s. is_queued s ≡ true → precedes s r ≡ false) rs

IsLeast-weaken : (r s : Row) (rs : List Row) → precedes s r ≡ false → IsLeast s rs → IsLeast r rs
IsLeast-weaken r s [] h l = tt
IsLeast-weaken r s (x ∷ rs) h l = (λ q. precedes_trans x s r (l.0 q) h, IsLeast-weaken r s rs h l.1)

IsLeast-of_none : (r : Row) (rs : List Row) → All (λ s. is_queued s ≡ false) rs → IsLeast r rs
IsLeast-of_none r [] h = tt
IsLeast-of_none r (x ∷ rs) h = (λ q. absurd (cc (q, h.0)), IsLeast-of_none r rs h.1)

precedes_irrefl : (r : Row) → precedes r r ≡ false
precedes_irrefl r = elim (Bool-cases (precedes r r)) [ inl e ↦ precedes_asym r r e | inr e ↦ e ]

pub next_row-none : (rs : List Row) → next_row rs ≡ none → All (λ s. is_queued s ≡ false) rs
unfolding next_row
next_row-none [] h = tt
next_row-none (x ∷ rs) h = elim (Option-cases (next_row rs)) [
  | inl e ↦ (ground arith, next_row-none rs e)
  | inr (s, e) ↦ ground arith
]

abbrev IsBest : List Row → Row → Type 0
IsBest rs r = (is_queued r ≡ true) × IsLeast r rs

choose-IsBest :
    (b : Bool) (x s : Row) (rs : List Row)
    → (b ≡ true → IsBest rs x)
    → (b ≡ false → IsBest rs s)
    → IsBest rs (if b then x else s)
choose-IsBest true x s rs h k = h refl
choose-IsBest false x s rs h k = k refl

both_true : (a b : Bool) → (a && not b) ≡ true → (a ≡ true) × (b ≡ false)
both_true a b h = (ground arith, ground arith)

kept_second : (a b : Bool) → (a && not b) ≡ false → a ≡ true → b ≡ true
kept_second a b h k = ground arith

-- `x` in front of rows whose best is `s`
IsBest-cons :
    (x s : Row) (rs : List Row)
    → IsBest rs s
    → IsBest (x ∷ rs) (if is_queued x && not (precedes s x) then x else s)
IsBest-cons x s rs h =
    choose-IsBest (is_queued x && not (precedes s x)) x s (x ∷ rs)
      (λ b.
        let (q, p) = both_true (is_queued x) (precedes s x) b in
        (q, (λ _. precedes_irrefl x, IsLeast-weaken x s rs p h.1)))
      (λ b. (h.0, (λ q. precedes_asym s x (kept_second (is_queued x) (precedes s x) b q), h.1)))

if_some : (b : Bool) (x y : Row) → (if b then some x else some y) ≡ some (if b then x else y)
if_some true x y = refl
if_some false x y = refl

pub next_row_least : (rs : List Row) (r : Row) → next_row rs ≡ some r → IsBest rs r
unfolding next_row
next_row_least [] r h = absurd (cc)
next_row_least (x ∷ rs) r h = elim (Option-cases (next_row rs)) [
  | inl e ↦ elim (Bool-cases (is_queued x)) [
    | inr q ↦ absurd (cc (rw (e, next_row, q) at h))
    | inl q ↦
        subst (IsBest (x ∷ rs)) (some-injective x r (rw (e, next_row, q) at h))
          (q, (λ _. precedes_irrefl x, IsLeast-of_none x rs (next_row-none rs e)))
  ]
  | inr (s, e) ↦
      subst (IsBest (x ∷ rs))
        (some-injective _ _
          (sym (if_some (is_queued x && not (precedes s x)) x s) ∙ (rw (e, next_row) at h)))
        (IsBest-cons x s rs (next_row_least rs s e))
]

row_at_head : (r : Row) (rs : List Row) → row_at r.id (r ∷ rs) ≡ some r
unfolding row_at
row_at_head r rs = ground (arith, eq_iff r.id r.id)

row_at_tail :
    (x : Row) (i : String) (rs : List Row) (r : Row)
    → mem x.id (ids rs) ≡ false
    → row_at i rs ≡ some r
    → row_at i (x ∷ rs) ≡ some r
unfolding row_at mem
row_at_tail x i [] r n h = cc
row_at_tail x i (y ∷ rs) r n h =
    ground (arith, eq_iff x.id i, eq_iff y.id x.id, eq_iff y.id i, row_at_tail x i rs r)

-- The row that is found stands in the table under its id.
next_row_at :
    (rs : List Row) (r : Row) → Distinct (ids rs) → next_row rs ≡ some r → row_at r.id rs ≡ some r
unfolding next_row
next_row_at [] r u h = absurd (cc)
next_row_at (x ∷ rs) r u h = elim (Option-cases (next_row rs)) [
  | inl e ↦ elim (Bool-cases (is_queued x)) [
    | inr q ↦ absurd (cc (rw (e, next_row, q) at h))
    | inl q ↦
        subst (λ (y : Row). row_at y.id (x ∷ rs) ≡ some y)
          (some-injective x r (rw (e, next_row, q) at h)) (row_at_head x rs)
  ]
  | inr (s, e) ↦ elim (Bool-cases (is_queued x && not (precedes s x))) [
    | inl q ↦
        subst (λ (y : Row). row_at y.id (x ∷ rs) ≡ some y)
          (some-injective x r (rw (e, next_row, q) at h)) (row_at_head x rs)
    | inr q ↦
        subst (λ (y : Row). row_at y.id (x ∷ rs) ≡ some y)
          (some-injective s r (rw (e, next_row, q) at h))
          (row_at_tail x s.id rs s u.0 (next_row_at rs s u.1 e))
  ]
]

pub row_at-update :
    (i j : String) (f : Row → Row) (rs : List Row)
    → ((r : Row) → (f r).id ≡ r.id)
    → row_at j (update_at i f rs)
      ≡ (if i == j then elim (row_at j rs) [ none ↦ none | some r ↦ some (f r) ] else row_at j rs)
unfolding row_at update_at
row_at-update i j f [] h = ground arith
row_at-update i j f (r ∷ rs) h =
    ground (arith, h r, row_at-update i j f rs h, eq_iff i j, eq_iff r.id i, eq_iff r.id j)

-- What a claim does to the table: `r` was the best queued row, it is now 'analyzing', and every
-- other row is as before.
pub record IsClaim (before after : List Row) (r : Row) : Type 0 where
  pub was_queued : is_queued r ≡ true
  pub least : IsLeast r before
  pub stood : row_at r.id before ≡ some r
  pub now_analyzing : row_at r.id after ≡ some (claimed r)
  pub others : (j : String) → r.id == j ≡ false → row_at j after ≡ row_at j before
  pub table : IsTable after

update-IsClaim :
    (rows : List Row) (r : Row)
    → IsTable rows
    → next_row rows ≡ some r
    → IsClaim rows (update_at r.id claimed rows) r
update-IsClaim rows r t h = record {
  was_queued = (next_row_least rows r h).0;
  least = (next_row_least rows r h).1;
  stood = next_row_at rows r t.ids_distinct h;
  now_analyzing =
      row_at-update r.id r.id claimed rows (λ s. refl)
      ∙ ground (arith, next_row_at rows r t.ids_distinct h, eq_iff r.id r.id);
  others = λ j n. rw (row_at-update r.id j claimed rows (λ s. refl), n);
  table = update_at-IsTable r.id claimed rows (λ s. refl) Parts-claimed t;
}

-- In a table as the queue keeps it, a claim either finds no queued ticket and changes nothing, or takes
-- the queued ticket that no other queued ticket stands in front of, marks it 'analyzing' and changes
-- no other row.
pub claim_row-IsClaim :
    (rows : List Row)
    → IsTable rows
    → ((claim_row rows ≡ (none, rows)) × All (λ s. is_queued s ≡ false) rows)
      ⊎ ((r : Row) × (claim_row rows ≡ (some (claimed r), update_at r.id claimed rows))
          × IsClaim rows (update_at r.id claimed rows) r)
unfolding claim_row
claim_row-IsClaim rows t = elim (Option-cases (next_row rows)) [
  | inl e ↦ inl (rw (e, claim_row), next_row-none rows e)
  | inr (r, e) ↦ inr (r, rw (e, claim_row), update-IsClaim rows r t e)
]

analyzing_not_queued : (r s : Row) → claimed r ≡ s → is_queued s ≡ false
analyzing_not_queued r s e = subst (λ (x : Row). is_queued x ≡ false) e refl

-- In a table as the queue keeps it, two claims, one after the other, that each return a ticket never
-- return the same one.
pub claim_twice :
    (rows rows' rows'' : List Row) (r s : Row)
    → IsTable rows
    → claim_row rows ≡ (some r, rows')
    → claim_row rows' ≡ (some s, rows'')
    → r.id == s.id ≡ false
claim_twice rows rows' rows'' r s t h k = elim (claim_row-IsClaim rows t) [
  | inl (e, _) ↦ absurd (cc (e, h))
  | inr (x, e, c) ↦
      let same_row : claimed x ≡ r =
        some-injective _ _ (ap (λ (p : Option Row × List Row). p.0) (sym e ∙ h)) in
      let same_table : update_at x.id claimed rows ≡ rows' =
        ap (λ (p : Option Row × List Row). p.1) (sym e ∙ h) in
      let table' : IsTable rows' = subst IsTable same_table c.table in
      elim (claim_row-IsClaim rows' table') [
        | inl (f, _) ↦ absurd (cc (f, k))
        | inr (y, f, d) ↦
            let same : claimed y ≡ s =
              some-injective _ _ (ap (λ (p : Option Row × List Row). p.0) (sym f ∙ k)) in
            let found : row_at x.id rows' ≡ some (claimed x) =
              subst (λ (rs : List Row). row_at x.id rs ≡ some (claimed x)) same_table
                c.now_analyzing in
            elim (Bool-cases (x.id == y.id)) [
              | inr n ↦
                  rw (sym (ap (λ (z : Row). z.id) same_row), sym (ap (λ (z : Row). z.id) same)) n
              | inl m ↦
                  let there : row_at x.id rows' ≡ some y =
                    subst (λ (i : String). row_at i rows' ≡ some y) (sym ((eq_iff x.id y.id).0 m))
                      d.stood in
                  absurd (
                    cc (
                      d.was_queued,
                      analyzing_not_queued x y (some-injective _ _ (sym found ∙ there)),
                    ))
            ]
      ]
]
