-- ===== src/Jobs/Kept.antt =====
-- How long a settled job stays in the table.
use dynamis_code_apps_templa.Prelude.{
  filter, not, ◌+◌, ◌*◌, ◌≤◌, ℕ, ◌≡◌, Bool, true, false, inl, inr, some, List, [], ◌∷◌, ◌++◌, arith,
  In, any, update_where, Bool-cases, sym, text_key, triple_key, Option-cases, subst,
}
use Prim.Native.Nat.{◌-◌}
use dynamis_code_apps_templa.Clock.{second, stamp}
use dynamis_code_apps_templa.Clock.Order.{stamp_leb-lt}
use dynamis_code_apps_templa.Schema.{JobRow}
use dynamis_code_apps_templa.Jobs.Table.{
  Job, due, first_due, start_lease, is_chosen, claim_rows, is_held, finish_rows, enqueue_rows,
  is_duplicate, new_row, is_finished, is_stale, prune_rows,
}
use dynamis_code_apps_templa.Jobs.Rows.{
  Step, claimed, finished, enqueued, pruned, Reach, here, next,
}

In-update_where :
    (p : JobRow → Bool) (f : JobRow → JobRow) (a : JobRow) (rows : List JobRow)
    → p a ≡ false
    → In a rows
    → In a (update_where p f rows)
In-update_where p f a [] miss m = m
In-update_where p f a (x ∷ xs) miss (inl e) = inl (rw (subst (λ y. p y ≡ false) (sym e) miss) e)
In-update_where p f a (x ∷ xs) miss (inr m) = inr (In-update_where p f a xs miss m)

In-append : (a : JobRow) (xs ys : List JobRow) → In a xs → In a (xs ++ ys)
In-append a [] ys m = absurd m
In-append a (x ∷ xs) ys (inl e) = inl e
In-append a (x ∷ xs) ys (inr m) = inr (In-append a xs ys m)

finished-not-due : (now : ℕ) (r : JobRow) → is_finished r.status ≡ true → due now r ≡ false
unfolding due
finished-not-due now r h = ground arith

finished-not-held : (job : Job) (r : JobRow) → is_finished r.status ≡ true → is_held job r ≡ false
unfolding is_held
finished-not-held job r h = ground arith

In-filter :
    (p : JobRow → Bool) (a : JobRow) (rows : List JobRow)
    → p a ≡ true
    → In a rows
    → In a (filter p rows)
In-filter p a [] hit m = m
In-filter p a (x ∷ xs) hit (inl e) = rw (subst (λ y. p y ≡ true) (sym e) hit) (inl e)
In-filter p a (x ∷ xs) hit (inr m) = elim (Bool-cases (p x)) [
  | inl taken ↦ rw taken (inr (In-filter p a xs hit m))
  | inr left ↦ rw left (In-filter p a xs hit m)
]

-- What was completed less than 365 days ago, less a second, is not deleted.
young-not-stale :
    (t now : ℕ) (r : JobRow)
    → r.completed_at ≡ some (stamp t)
    → now + second ≤ t + 365 * 86400 * second
    → is_stale now r ≡ false
unfolding is_stale
young-not-stale t now r completed young = elim (Bool-cases (is_stale now r)) [
  | inr fresh ↦ fresh
  | inl stale ↦ absurd (ground (arith, completed, stamp_leb-lt t (now - 365 * 86400 * second)))
]

-- Whether a statement, or each of a history, deletes nothing that was completed at `t` or later: claims,
-- results and new jobs delete nothing, and a pruning runs less than 365 days after `t`, less a second.
abbrev pub IsEarlyStep : ℕ → {rows rows' : List JobRow} → Step rows rows' → Type 0
IsEarlyStep t (claimed token now) = Unit {0}
IsEarlyStep t (finished job result now m) = Unit {0}
IsEarlyStep t (enqueued id new free) = Unit {0}
IsEarlyStep t (pruned now) = now + second ≤ t + 365 * 86400 * second

abbrev pub IsEarly : ℕ → {rows rows' : List JobRow} → Reach rows rows' → Type 0
IsEarly t here = Unit {0}
IsEarly t (next h s) = IsEarly t h × IsEarlyStep t s

Step-finished :
    {rows rows' : List JobRow}
    → (s : Step rows rows') → (r : JobRow) → is_finished r.status ≡ true
    → (t : ℕ) → r.completed_at ≡ some (stamp t)
    → IsEarlyStep t s
    → In r rows
    → In r rows'
unfolding claim_rows finish_rows enqueue_rows prune_rows
Step-finished {rows} (claimed token now) r over t completed early m =
    elim (Option-cases (first_due now rows)) [
      | inl nothing ↦ rw nothing m
      | inr (c, first) ↦ rw first (
          In-update_where (is_chosen now c) (start_lease token now) r rows
            (ground (arith, finished-not-due now r)) m)
    ]
Step-finished {rows} (finished job result now _) r over t completed early m =
    In-update_where (is_held job) _ r rows (finished-not-held job r over) m
Step-finished {rows} (enqueued id new free) r over t completed early m =
    elim (Bool-cases (any (is_duplicate new) rows)) [
      | inl known ↦ rw known m
      | inr unknown ↦ rw unknown (In-append r rows (new_row id new ∷ []) m)
    ]
Step-finished {rows} (pruned now) r over t completed early m =
    In-filter (λ r. not (is_stale now r)) r rows
      (ground (arith, young-not-stale t now r completed early)) m

-- A job that has succeeded or failed stays in the table as it is, through any history of claims, results,
-- new jobs and prunings by the maintenance, for 365 days from its completion, less the second by which
-- the trimmed texts of times may be out of order. The deletion of its workspace, which takes its jobs
-- with it, is no part of such a history.
pub finished_kept :
    {rows rows' : List JobRow} (h : Reach rows rows')
    → (r : JobRow) → is_finished r.status ≡ true
    → (t : ℕ) → r.completed_at ≡ some (stamp t)
    → IsEarly t h
    → In r rows
    → In r rows'
finished_kept here r over t completed early m = m
finished_kept (next h s) r over t completed early m =
    Step-finished s r over t completed early.1 (finished_kept h r over t completed early.0 m)
