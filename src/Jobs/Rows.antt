-- ===== src/Jobs/Rows.antt =====
-- The history of the table: claims, results, new jobs and the deletion of settled jobs in any order.
use dynamis_code_apps_templa.Prelude.{
  UniqueBy-filter, not, ℕ, ◌<◌, ◌≡◌, refl, Bool, true, false, inl, inr, Option, none, some, List,
  [], ◌∷◌, Text, arith, All, All-updated, All-append, All-map, any, update_where, is_some,
  Bool-cases, UniqueBy, All-map₂, UniqueBy-update_where, UniqueBy-append, has_key, text_key,
  triple_key, Option-cases, if◌then◌else◌,
}
use dynamis_code_apps_templa.Prelude.Sort.{All-filter}
use dynamis_code_apps_templa.Schema.{JobRow, pending}
use dynamis_code_apps_templa.Jobs.Table.{
  Job, JobError, NewJob, first_due, start_lease, end_lease, outcome, is_chosen, claim_rows, is_held,
  finish_rows, enqueue_rows, is_duplicate, dedup_key, new_row, is_running, is_finished,
  max_attempts, is_stale, prune_rows,
}

-- A row between two statements: a lease exactly while it runs, an end exactly when it is over, and an
-- attempt left while it waits.
pub record RowOk (r : JobRow) : Type 0 where
  pub leased : is_some r.lease_token ≡ is_running r.status
  pub timed : is_some r.leased_until ≡ is_running r.status
  pub ended : is_some r.completed_at ≡ is_finished r.status
  pub attempt_left : r.status ≡ pending → r.attempt_count < max_attempts

pub record IsSound (rows : List JobRow) : Type 0 where
  pub ids : UniqueBy (λ r. r.id) rows
  pub keys : UniqueBy dedup_key rows
  pub each : All RowOk rows

start_lease-RowOk :
    (token : Text) (now : ℕ) (r : JobRow) → RowOk r → RowOk (start_lease token now r)
start_lease-RowOk token now r h = ground arith

end_lease-RowOk :
    (attempt : ℕ) (result : Option JobError) (now : ℕ) (r : JobRow)
    → r.attempt_count ≡ attempt
    → RowOk (end_lease (outcome attempt result now) now r)
unfolding outcome
end_lease-RowOk attempt none now r h = ground arith
end_lease-RowOk attempt (some e) now r h = ground arith

new_row-RowOk : (id : Text) (new : NewJob) → RowOk (new_row id new)
new_row-RowOk id new = ground arith

-- The job knows how often its row has been claimed.
abbrev pub Matches : Job → List JobRow → Type 0
Matches job rows = All (λ r. is_held job r ≡ true → r.attempt_count ≡ job.attempt_count) rows

-- One statement on the table: `claim`, `finish` with a job that was claimed, `EnqueueTx` with a fresh id,
-- or the DELETE of the maintenance.
pub data Step (rows : List JobRow) : List JobRow → Type 0 where
  claimed : (token : Text) (now : ℕ) → Step rows (claim_rows token now rows).0
  finished :
      (job : Job) (result : Option JobError) (now : ℕ)
      → Matches job rows
      → Step rows (finish_rows job result now rows)
  enqueued :
      (id : Text) (new : NewJob)
      → any (has_key (λ (r : JobRow). r.id) id) rows ≡ false
      → Step rows (enqueue_rows id new rows)
  pruned : (now : ℕ) → Step rows (prune_rows now rows)

pub data Reach (rows : List JobRow) : List JobRow → Type 0 where
  here : Reach rows rows
  next : {mid last : List JobRow} → Reach rows mid → Step mid last → Reach rows last

-- An update of some rows that keeps the ids, the keys and the shape of each row.
update-IsSound :
    (p : JobRow → Bool) (f : JobRow → JobRow) (rows : List JobRow)
    → ((r : JobRow) → (f r).id ≡ r.id)
    → ((r : JobRow) → dedup_key (f r) ≡ dedup_key r)
    → All (λ r. RowOk (if p r then f r else r)) rows
    → IsSound rows
    → IsSound (update_where p f rows)
update-IsSound p f rows ids keys each h = record {
  ids = UniqueBy-update_where (λ r. r.id) p f rows ids h.ids;
  keys = UniqueBy-update_where dedup_key p f rows keys h.keys;
  each = All-updated RowOk p f rows each;
}

if-RowOk : (b : Bool) (r s : JobRow) → (b ≡ true → RowOk r) → RowOk s → RowOk (if b then r else s)
if-RowOk true r s h k = h refl
if-RowOk false r s h k = k

claim-IsSound :
    (token : Text) (now : ℕ) (rows : List JobRow)
    → IsSound rows
    → IsSound (claim_rows token now rows).0
unfolding claim_rows
claim-IsSound token now rows h = elim (Option-cases (first_due now rows)) [
  | inl nothing ↦ rw nothing h
  | inr (c, first) ↦ rw first (
      update-IsSound (is_chosen now c) (start_lease token now) rows (λ r. refl) (λ r. refl)
        (All-map _ _ rows (λ r k. if-RowOk _ _ r (λ _. start_lease-RowOk token now r k) k) h.each)
        h)
]

finish-IsSound :
    (job : Job) (result : Option JobError) (now : ℕ) (rows : List JobRow)
    → Matches job rows
    → IsSound rows
    → IsSound (finish_rows job result now rows)
unfolding finish_rows
finish-IsSound job result now rows m h =
    update-IsSound (is_held job) (end_lease (outcome job.attempt_count result now) now) rows
      (λ r. refl) (λ r. refl)
      (All-map₂ _ _ _ rows
        (λ r same k.
          if-RowOk _ _ r (λ held. end_lease-RowOk job.attempt_count result now r (same held)) k)
        m h.each)
      h

enqueue-IsSound :
    (id : Text) (new : NewJob) (rows : List JobRow)
    → any (has_key (λ (r : JobRow). r.id) id) rows ≡ false
    → IsSound rows
    → IsSound (enqueue_rows id new rows)
unfolding enqueue_rows
enqueue-IsSound id new rows free h = elim (Bool-cases (any (is_duplicate new) rows)) [
  | inl known ↦ rw known h
  | inr unknown ↦ rw unknown (record {
    ids = UniqueBy-append (λ r. r.id) (new_row id new) rows h.ids free;
    keys = UniqueBy-append dedup_key (new_row id new) rows h.keys unknown;
    each = All-append RowOk rows (new_row id new ∷ []) h.each (new_row-RowOk id new, tt);
  })
]

prune-IsSound : (now : ℕ) (rows : List JobRow) → IsSound rows → IsSound (prune_rows now rows)
unfolding prune_rows
prune-IsSound now rows h = record {
  ids = UniqueBy-filter (λ r. r.id) (λ r. not (is_stale now r)) rows h.ids;
  keys = UniqueBy-filter dedup_key (λ r. not (is_stale now r)) rows h.keys;
  each = All-filter RowOk (λ r. not (is_stale now r)) rows h.each;
}

pub Step-IsSound : {rows rows' : List JobRow} → Step rows rows' → IsSound rows → IsSound rows'
Step-IsSound {rows} (claimed token now) h = claim-IsSound token now rows h
Step-IsSound {rows} (finished job result now m) h = finish-IsSound job result now rows m h
Step-IsSound {rows} (enqueued id new free) h = enqueue-IsSound id new rows free h
Step-IsSound {rows} (pruned now) h = prune-IsSound now rows h

-- After any history of claims, new jobs under fresh ids, prunings by the maintenance, and results of jobs whose attempts agree with
-- the row that they hold, which starts with a sound table, the table is sound: ids and deduplication keys are
-- unique, a row has a lease exactly while it runs and an end exactly when it is over, and a waiting
-- job has an attempt left.
pub Reach-IsSound : {rows rows' : List JobRow} → Reach rows rows' → IsSound rows → IsSound rows'
Reach-IsSound here h = h
Reach-IsSound (next r s) h = Step-IsSound s (Reach-IsSound r h)
