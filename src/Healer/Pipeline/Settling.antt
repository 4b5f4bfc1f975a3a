-- ===== src/Healer/Pipeline/Settling.antt =====
-- How a run ends for its ticket (`_process_ticket` and `_apply_and_notify` of healer/pipeline.py).
use specora_core.Prelude.{
  String, ◌≡◌, refl, Bool, true, false, some, [], ◌∷◌, ◌++◌, ◌⊎◌, inl, inr, arith,
}
use specora_core.Prelude.Options.{Option-cases}
use specora_core.Healer.Models.{HealerTicket, HealerProposal, applied, failed}
use specora_core.Healer.Queue.{update_status}
use specora_core.Healer.Applier.{glue, Disk, apply_fix, diff_of}
use specora_core.Healer.Applier.Atomic.{IsWritten, apply_fix-Outcome}
use specora_core.Healer.Pipeline.{
  Setup, World, notify, set_status, apply_and_notify, apply_at, conclude, auto_regenerate,
  write_all, find_contract_path, or_blank, applied_note, fqn_text,
}

-- A fix on disk, and the files that the regeneration wrote over it.
pub record IsApplied (S : Setup) (t : HealerTicket) (actor now : String) (w w' : World)
    : Type 0 where
  pub proposal : HealerProposal
  pub proposes : t.proposal ≡ some proposal
  pub path : String
  pub found : find_contract_path S w (or_blank t.contract_fqn) ≡ some path
  pub fixed : Disk
  pub written :
      IsWritten S.outside proposal path t.id actor w.disk
        (w.disk.diffs ++ diff_of proposal t.id actor ∷ [])
        fixed
  pub files : w'.disk.files ≡ write_all (S.regenerate fixed.files).0 fixed.files
  pub diffs : w'.disk.diffs ≡ fixed.diffs
  pub note : String
  pub status : w'.db ≡ update_status t.id applied note now w.db

abbrev pub IsFailed : HealerTicket → String → World → World → Type 0
IsFailed t now w w' =
    (note : String) × (w'.db ≡ update_status t.id failed note now w.db) × (w'.disk ≡ w.disk)

auto_regenerate-files :
    (S : Setup) (t : HealerTicket) (w : World)
    → (auto_regenerate S t w).disk.files ≡ write_all (S.regenerate w.disk.files).0 w.disk.files
unfolding auto_regenerate notify
auto_regenerate-files S t w = ground arith

auto_regenerate-diffs :
    (S : Setup) (t : HealerTicket) (w : World) → (auto_regenerate S t w).disk.diffs ≡ w.disk.diffs
unfolding auto_regenerate notify
auto_regenerate-diffs S t w = ground arith

auto_regenerate-db : (S : Setup) (t : HealerTicket) (w : World) → (auto_regenerate S t w).db ≡ w.db
unfolding auto_regenerate notify
auto_regenerate-db S t w = ground arith

-- The fix on disk without its diff: the store raised after the file was replaced.
pub record IsUnrecorded (S : Setup) (t : HealerTicket) (actor : String) (w w' : World)
    : Type 0 where
  pub proposal : HealerProposal
  pub proposes : t.proposal ≡ some proposal
  pub path : String
  pub found : find_contract_path S w (or_blank t.contract_fqn) ≡ some path
  pub refused : S.outside.saves (diff_of proposal t.id actor) ≡ false
  pub written : IsWritten S.outside proposal path t.id actor w.disk w.disk.diffs w'.disk
  pub db_same : w'.db ≡ w.db
  pub log_same : w'.log ≡ w.log

-- How a run ends: the fix applied, the ticket failed, or an exception.
abbrev pub Ending : Setup → HealerTicket → String → String → World → Bool × World → Type 0
Ending S t actor now w r =
    ((r.0 ≡ true) × IsApplied S t actor now w r.1)
    ⊎ ((r.0 ≡ true) × IsFailed t now w r.1)
    ⊎ ((r.0 ≡ false) × IsUnrecorded S t actor w r.1)

apply_at-ends :
    (S : Setup) (t : HealerTicket) (p : HealerProposal) (path actor now : String) (w : World)
    → t.proposal ≡ some p
    → find_contract_path S w (or_blank t.contract_fqn) ≡ some path
    → Ending S t actor now w (apply_at S t p path actor now w)
unfolding apply_at conclude notify set_status
apply_at-ends S t p path actor now w h k =
    let r = apply_fix S.outside p path t.id actor w.disk in
    elim (apply_fix-Outcome S.outside p path t.id actor w.disk) [
      | inr (inr (e, f, d)) ↦ inr (
          inr (
            rw (e, apply_at, conclude) refl,
            record {
              proposal = p;
              proposes = h;
              path = path;
              found = k;
              refused = f;
              written = rw (e, apply_at, conclude) d;
              db_same = rw (e, apply_at, conclude) refl;
              log_same = rw (e, apply_at, conclude) refl;
            },
          ))
      | inr (inl (x, e, f, d)) ↦ inr (
          inl (
            rw (e, apply_at, conclude) refl,
            (x.error, rw (e, f, apply_at, conclude) refl, rw (e, f, apply_at, conclude) d),
          ))
      | inl (x, e, f, d) ↦
          let done =
            notify t "applied" p.explanation (
              set_status t.id applied (applied_note actor x.notes) now (record w { disk = r.1 })) in
          inl (
            rw (e, apply_at, conclude) refl,
            record {
              proposal = p;
              proposes = h;
              path = path;
              found = k;
              fixed = r.1;
              written = d;
              files = rw (e, f, apply_at, conclude) (auto_regenerate-files S t done);
              diffs = rw (e, f, apply_at, conclude) (auto_regenerate-diffs S t done);
              note = applied_note actor x.notes;
              status = rw (e, f, apply_at, conclude) (auto_regenerate-db S t done);
            },
          )
    ]

apply_and_notify-at :
    (S : Setup) (t : HealerTicket) (p : HealerProposal) (path actor now : String) (w : World)
    → t.proposal ≡ some p
    → find_contract_path S w (or_blank t.contract_fqn) ≡ some path
    → apply_and_notify S t actor now w ≡ apply_at S t p path actor now w
unfolding apply_and_notify
apply_and_notify-at S t p path actor now w e f = ground (arith, e, f)

pub apply_and_notify-ends :
    (S : Setup) (t : HealerTicket) (actor now : String) (w : World)
    → Ending S t actor now w (apply_and_notify S t actor now w)
unfolding notify set_status apply_and_notify update_status
apply_and_notify-ends S t actor now w = elim (Option-cases t.proposal) [
  | inl e ↦ inr (
      inl (
        rw (e, apply_and_notify) refl,
        ("No proposal", rw (e, apply_and_notify) refl, rw (e, apply_and_notify) refl),
      ))
  | inr (p, e) ↦ elim (Option-cases (find_contract_path S w (or_blank t.contract_fqn))) [
    | inl f ↦ inr (
        inl (
          rw (e, f, apply_and_notify) refl,
          (
            glue "Contract file not found for " (fqn_text t.contract_fqn),
            rw (e, f, apply_and_notify) refl,
            rw (e, f, apply_and_notify) refl,
          ),
        ))
    | inr (path, f) ↦
        rw (apply_and_notify-at S t p path actor now w e f)
          (apply_at-ends S t p path actor now w e f)
  ]
]
