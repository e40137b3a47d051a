-- ===== src/Workflow/Service/Active.antt =====
-- internal/workflow/service.go: `activeRunCount` over the changes of the map of runs.
use remote_code.Prelude.{
  ℕ, suc, ◌+◌, ◌≡◌, ◌≤◌, ap, ◌∙◌, sym, String, Bool, true, false, some, [], ◌∷◌, Map, arith, lookup,
  insert, delete, str_eq, if◌then◌else◌, Bool-cases, inl, inr,
}
use remote_code.Workflow.Model.{RunRecord, terminal_run_state}
use remote_code.Workflow.Service.{count_active}

abbrev active_one : RunRecord → ℕ
active_one rec = if terminal_run_state rec.run.run_state then 0 else 1

count_active-cons :
    (key : String) (rec : RunRecord) (m : Map RunRecord)
    → count_active ((key, rec) ∷ m) ≡ active_one rec + count_active m
unfolding count_active if◌then◌else◌
count_active-cons key rec m = elim (Bool-cases (terminal_run_state rec.run.run_state)) [
  | inl h ↦ rw h (omega arith)
  | inr h ↦ rw h (omega arith)
]

active_one_le : (rec : RunRecord) → active_one rec ≤ 1
unfolding if◌then◌else◌
active_one_le rec = elim (Bool-cases (terminal_run_state rec.run.run_state)) [
  | inl h ↦ rw h (omega arith)
  | inr h ↦ rw h (omega arith)
]

active_one_mono :
    (old new : RunRecord)
    → (terminal_run_state old.run.run_state ≡ true → terminal_run_state new.run.run_state ≡ true)
    → active_one new ≤ active_one old
unfolding if◌then◌else◌
active_one_mono old new ends = elim (Bool-cases (terminal_run_state old.run.run_state)) [
  | inl h ↦ rw (h, ends h) (omega arith)
  | inr h ↦ rw h (active_one_le new)
]

-- A record that is put in the place of one counts at most as much, if it has ended where that had.
pub count_active-replace :
    (key : String) (old new : RunRecord) (m : Map RunRecord)
    → lookup key m ≡ some old
    → (terminal_run_state old.run.run_state ≡ true → terminal_run_state new.run.run_state ≡ true)
    → count_active (insert key new m) ≤ count_active m
unfolding lookup insert if◌then◌else◌
count_active-replace key old new [] found ends = cc
count_active-replace key old new ((k, rec) ∷ m) found ends = elim (Bool-cases (str_eq k key)) [
  | inl h ↦
      rw (h, count_active-cons k new m, count_active-cons k rec m)
        (omega (arith, active_one_mono rec new λ over. ends (ap ended (sym (same h)) ∙ over)))
  | inr h ↦
      rw (h, count_active-cons k rec (insert key new m), count_active-cons k rec m)
        (omega (arith, count_active-replace key old new m (rest h) ends))
]
  where
    ended : RunRecord → Bool
    ended r = terminal_run_state r.run.run_state

    some-injective : {a b : RunRecord} → some a ≡ some b → a ≡ b
    some-injective p = cc

    same : str_eq k key ≡ true → rec ≡ old
    same h = some-injective (rw h at found)

    rest : str_eq k key ≡ false → lookup key m ≡ some old
    rest h = rw h at found

pub count_active-insert :
    (key : String) (new : RunRecord) (m : Map RunRecord)
    → count_active (insert key new m) ≤ suc (count_active m)
unfolding insert if◌then◌else◌
count_active-insert key new [] =
    rw (count_active-cons key new []) (omega (arith, active_one_le new))
count_active-insert key new ((k, rec) ∷ m) = elim (Bool-cases (str_eq k key)) [
  | inl h ↦
      rw (h, count_active-cons k new m, count_active-cons k rec m)
        (omega (arith, active_one_le new))
  | inr h ↦
      rw (h, count_active-cons k rec (insert key new m), count_active-cons k rec m)
        (omega (arith, count_active-insert key new m))
]

pub count_active-delete :
    (key : String) (m : Map RunRecord) → count_active (delete key m) ≤ count_active m
unfolding delete if◌then◌else◌
count_active-delete key [] = omega arith
count_active-delete key ((k, rec) ∷ m) = elim (Bool-cases (str_eq k key)) [
  | inl h ↦ rw (h, count_active-cons k rec m) (omega (arith, count_active-delete key m))
  | inr h ↦
      rw (h, count_active-cons k rec (delete key m), count_active-cons k rec m)
        (omega (arith, count_active-delete key m))
]
