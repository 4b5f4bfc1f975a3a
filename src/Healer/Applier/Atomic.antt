-- ===== src/Healer/Applier/Atomic.antt =====
-- What `apply_fix` (healer/applier.py) writes and refuses.
use specora_core.Prelude.{
  String, ◌≡◌, refl, true, false, Option, none, ◌⊎◌, inl, inr, some, List, [], ◌∷◌, ◌++◌, lookup,
  put, Bool-cases,
}
use specora_core.Prelude.Options.{Option-cases}
use specora_core.Json.{Value, obj, eq_value}
use specora_core.Healer.Models.{HealerProposal}
use specora_core.Healer.Applier.{
  Outside, Loaded, loaded, yaml_error, ApplyResult, ContractDiff, Disk, strip_fields, record_diff,
  write_fix, check_reload, apply_fix, diff_of, or_empty,
}
use specora_core.Healer.Applier.Clean.{HasCleanKeys, strip_fields-HasCleanKeys}

-- A run that replaced the file: what was checked, and what it left on disk.
pub record IsWritten (o : Outside) (p : HealerProposal) (path ticket_id actor : String)
    (disk : Disk) (diffs : List ContractDiff) (disk' : Disk) : Type 0 where
  pub existed : (old : String) × (lookup path disk.files ≡ some old)
  pub valid : o.validate (obj (strip_fields p.after)) ≡ []
  pub read_back : Value
  pub reads : o.safe_load (o.dump (strip_fields p.after)) ≡ loaded read_back
  pub reloaded_valid : o.validate (or_empty read_back) ≡ []
  pub same : eq_value read_back (obj (strip_fields p.after)) ≡ true
  pub clean : HasCleanKeys (strip_fields p.after)
  pub left :
      disk' ≡ record { files = put path (o.dump (strip_fields p.after)) disk.files; diffs = diffs }

abbrev pub Outcome :
    Outside → HealerProposal → String → String → String → Disk → Option ApplyResult × Disk → Type 0
Outcome o p path ticket_id actor disk r =
    let diff = diff_of p ticket_id actor in
    ((result : ApplyResult) × (r.0 ≡ some result)
      × (result.success ≡ true)
      × IsWritten o p path ticket_id actor disk (disk.diffs ++ diff ∷ []) r.1)
    ⊎ ((result : ApplyResult) × (r.0 ≡ some result) × (result.success ≡ false) × (r.1 ≡ disk))
    ⊎ ((r.0 ≡ none)
        × (o.saves diff ≡ false)
        × IsWritten o p path ticket_id actor disk disk.diffs r.1)

List-cases : (ms : List String) → (ms ≡ []) ⊎ ((m : String) × (ns : List String) × (ms ≡ m ∷ ns))
List-cases [] = inl refl
List-cases (m ∷ ns) = inr (m, ns, refl)

Loaded-cases : (l : Loaded) → ((v : Value) × (l ≡ loaded v)) ⊎ ((s : String) × (l ≡ yaml_error s))
Loaded-cases (loaded v) = inl (v, refl)
Loaded-cases (yaml_error s) = inr (s, refl)

module _ (o : Outside) (p : HealerProposal) (path ticket_id actor : String) (disk : Disk) where
  -- The new file is there, and the store saves the diff or raises.
  record_diff-Outcome :
      (old : String)
      → lookup path disk.files ≡ some old
      → o.validate (obj (strip_fields p.after)) ≡ []
      → (v : Value) → o.safe_load (o.dump (strip_fields p.after)) ≡ loaded v
      → o.validate (or_empty v) ≡ []
      → eq_value v (obj (strip_fields p.after)) ≡ true
      → Outcome o p path ticket_id actor disk (
          record_diff o p ticket_id actor
            (record disk { files = put path (o.dump (strip_fields p.after)) disk.files }))
  unfolding record_diff
  record_diff-Outcome old h k v l m n =
      let written : (diffs : List ContractDiff)
          → IsWritten o p path ticket_id actor disk diffs (record {
            files = put path (o.dump (strip_fields p.after)) disk.files;
            diffs = diffs;
          }) =
        λ diffs. record {
          existed = (old, h);
          valid = k;
          read_back = v;
          reads = l;
          reloaded_valid = m;
          same = n;
          clean = strip_fields-HasCleanKeys p.after;
          left = refl;
        } in
      elim (Bool-cases (o.saves (diff_of p ticket_id actor))) [
        | inl e ↦
            rw (e, record_diff)
              (inl (_, refl, refl, written (disk.diffs ++ diff_of p ticket_id actor ∷ [])))
        | inr e ↦ rw (e, record_diff) (inr (inr (refl, refl, written disk.diffs)))
      ]

  write_fix-Outcome :
      (old : String)
      → lookup path disk.files ≡ some old
      → o.validate (obj (strip_fields p.after)) ≡ []
      → (v : Value) → o.safe_load (o.dump (strip_fields p.after)) ≡ loaded v
      → o.validate (or_empty v) ≡ []
      → eq_value v (obj (strip_fields p.after)) ≡ true
      → Outcome o p path ticket_id actor disk (write_fix o p path ticket_id actor disk)
  unfolding write_fix
  write_fix-Outcome old h k v l m n =
      elim (Option-cases (o.write_error path (o.dump (strip_fields p.after)))) [
        | inr (exc, e) ↦ rw (e, write_fix) (inr (inl (_, refl, refl, refl)))
        | inl e ↦ rw (e, write_fix) (record_diff-Outcome old h k v l m n)
      ]

  check_reload-Outcome :
      (old : String)
      → lookup path disk.files ≡ some old
      → o.validate (obj (strip_fields p.after)) ≡ []
      → Outcome o p path ticket_id actor disk (check_reload o p path ticket_id actor disk)
  unfolding check_reload
  check_reload-Outcome old h k = elim (Loaded-cases (o.safe_load (o.dump (strip_fields p.after)))) [
    | inr (s, e) ↦ rw (e, check_reload) (inr (inl (_, refl, refl, refl)))
    | inl (v, e) ↦ elim (List-cases (o.validate (or_empty v))) [
      | inr (m, ms, f) ↦ rw (e, f, check_reload) (inr (inl (_, refl, refl, refl)))
      | inl f ↦ elim (Bool-cases (eq_value v (obj (strip_fields p.after)))) [
        | inr g ↦ rw (e, f, g, check_reload) (inr (inl (_, refl, refl, refl)))
        | inl g ↦ rw (e, f, g, check_reload) (write_fix-Outcome old h k v e f g)
      ]
    ]
  ]

  -- With a validator and a YAML library that return, and a write that raises nothing but
  -- OSError, `apply_fix` succeeds, refuses, or raises. On success the contract file was there,
  -- the stripped proposal is valid and so are its bytes read back, which equal it, it holds no
  -- key that starts with an underscore, and the disk changes by exactly these bytes in that one
  -- file and one diff recorded behind the others. A refusal leaves the disk as it was. It raises
  -- only when saving the diff does, and then the file holds what a success writes, with no diff
  -- recorded.
  pub apply_fix-Outcome :
      Outcome o p path ticket_id actor disk (apply_fix o p path ticket_id actor disk)
  unfolding apply_fix
  apply_fix-Outcome = elim (List-cases (o.validate (obj (strip_fields p.after)))) [
    | inr (m, ms, e) ↦ rw (e, apply_fix) (inr (inl (_, refl, refl, refl)))
    | inl e ↦ elim (Option-cases (lookup path disk.files)) [
      | inl f ↦ rw (e, f, apply_fix) (inr (inl (_, refl, refl, refl)))
      | inr (old, f) ↦ rw (e, f, apply_fix) (check_reload-Outcome old f e)
    ]
  ]
