-- ===== src/Jobs/Tests.antt =====
-- Runs of the queue, and its theorems at concrete tables.
use dynamis_code_apps_templa.Prelude.{
  ℕ, ◌+◌, ◌*◌, ◌^◌, ◌≤◌, ◌≡◌, ◌≢◌, refl, inl, true, false, none, some, List, [], ◌∷◌, Text, ascii,
  arith, All, In, lookup, update_where, text_eq, text_leb, ap, ◌⊎◌,
}
use dynamis_code_apps_templa.Clock.{second, stamp, stamp_leb}
use dynamis_code_apps_templa.Clock.Digits.{tens, digits, strip}
use dynamis_code_apps_templa.Clock.RoundTrip.{parse_stamp-stamp}
use dynamis_code_apps_templa.Schema.{empty_database, JobRow, succeeded, failed, Database}
use dynamis_code_apps_templa.Exec.{World}
use dynamis_code_apps_templa.Jobs.Table.{
  Job, other_error, failure_category, NewJob, due, first_due, row_leb, start_lease, is_chosen,
  claim_rows, finish_rows, end_lease, outcome, enqueue_rows, new_row, prune_rows,
}
use dynamis_code_apps_templa.Jobs.Order.{IsClaimable}
use dynamis_code_apps_templa.Jobs.Lease.{claim_takes_first, claim_exclusive, finish_stale}
use dynamis_code_apps_templa.Jobs.Rows.{
  IsSound, Reach, here, next, claimed, enqueued, pruned, Reach-IsSound,
}
use dynamis_code_apps_templa.Jobs.Kept.{finished_kept}
use dynamis_code_apps_templa.Jobs.Outcome.{retry_backoff}
use dynamis_code_apps_templa.Jobs.Enqueue.{enqueue_once}
use dynamis_code_apps_templa.Jobs.Process.{healthy, job_of, round_success, round_failure}
use dynamis_code_apps_templa.Jobs.{Queue, Handler, round, done}

abbrev new_job : Text → NewJob
new_job key = record {
  workspace_id = ascii "w";
  kind = ascii "mail";
  deduplication_key = key;
  payload = ascii "{}";
  available_at = 0;
}

abbrev first_row : JobRow
first_row = new_row (ascii "a") (new_job (ascii "k1"))

abbrev second_row : JobRow
second_row = new_row (ascii "b") (new_job (ascii "k2"))

abbrev two_rows : List JobRow
two_rows = first_row ∷ second_row ∷ []

abbrev start : ℕ
start = 5 * second

first_is_due : first_due start two_rows ≡ some first_row
unfolding first_due due row_leb stamp_leb stamp strip digits tens text_leb
first_is_due = refl

claim_takes_first_example :
    All (λ r. due start r ≡ false) two_rows
      × (claim_rows (ascii "t") start two_rows ≡ (two_rows, 0))
    ⊎ ((c : JobRow) × IsClaimable start c two_rows
        × (claim_rows (ascii "t") start two_rows
            ≡ (update_where (is_chosen start c) (start_lease (ascii "t") start) two_rows, 1)))
unfolding text_eq
claim_takes_first_example = claim_takes_first (ascii "t") start two_rows (refl, (refl, tt))

second_is_next :
    first_due (start + second) (claim_rows (ascii "t") start two_rows).0 ≡ some second_row
unfolding claim_rows first_due due row_leb stamp_leb stamp strip digits tens text_leb text_eq
second_is_next = refl

claim_exclusive_example : second_row.id ≢ first_row.id
unfolding text_eq
claim_exclusive_example =
    claim_exclusive (ascii "t") start (start + second) two_rows first_row second_row
      (refl, (refl, tt)) first_is_due (omega arith) second_is_next

abbrev first_byte : Text → ℕ
first_byte [] = 0
first_byte (b ∷ s) = b

abbrev lost_job : Job
lost_job = job_of first_row (ascii "s") 0 0 0

finish_stale_example :
    finish_rows lost_job none start (claim_rows (ascii "t") start two_rows).0
    ≡ (claim_rows (ascii "t") start two_rows).0
unfolding text_eq
finish_stale_example =
    finish_stale (ascii "t") start start two_rows first_row lost_job none (refl, (refl, tt))
      first_is_due refl (λ e. omega (arith, ap first_byte e))

empty-IsSound : IsSound []
empty-IsSound = record { ids = tt; keys = tt; each = tt }

abbrev history :
    Reach [] (claim_rows (ascii "t") start (enqueue_rows (ascii "a") (new_job (ascii "k1")) [])).0
history =
    next (next here (enqueued (ascii "a") (new_job (ascii "k1")) refl)) (claimed (ascii "t") start)

Reach-IsSound_example :
    IsSound (claim_rows (ascii "t") start (enqueue_rows (ascii "a") (new_job (ascii "k1")) [])).0
Reach-IsSound_example = Reach-IsSound history empty-IsSound

abbrev over_row : JobRow
over_row = end_lease (outcome 1 none start) start (start_lease (ascii "t") start first_row)

finished_kept_example :
    In over_row (prune_rows (start + second) (claim_rows (ascii "u") start (over_row ∷ [])).0)
unfolding outcome
finished_kept_example =
    finished_kept (next (next here (claimed (ascii "u") start)) (pruned (start + second))) over_row
      refl start refl ((tt, tt), omega arith) (inl refl)

retry_backoff_example :
    (20 * second + second ≤ 20 * second + 2 ^ 2 * second
      → due
          (20 * second)
          (end_lease (outcome 3 (some other_error) (20 * second)) (20 * second) first_row)
        ≡ false)
    × (20 * second + 2 ^ 2 * second + second ≤ 20 * second
        → due
            (20 * second)
            (end_lease (outcome 3 (some other_error) (20 * second)) (20 * second) first_row)
          ≡ true)
retry_backoff_example =
    retry_backoff 2 other_error (20 * second) (20 * second) first_row (omega arith)

enqueue_once_example :
    enqueue_rows
      (ascii "c")
      (new_job (ascii "k1"))
      (enqueue_rows (ascii "a") (new_job (ascii "k1")) [])
    ≡ enqueue_rows (ascii "a") (new_job (ascii "k1")) []
enqueue_once_example =
    enqueue_once (ascii "a") (ascii "c") (new_job (ascii "k1")) (new_job (ascii "k1")) [] refl

abbrev store : Database
store = record empty_database { jobs = two_rows }

abbrev world : World
world = healthy store start (ascii "t") []

abbrev nothing_to_do : Handler
nothing_to_do job w = (none, w)

abbrev queue : Queue
queue = record { handlers = (ascii "mail", nothing_to_do) ∷ []; exhausted = []; started = true }

round_success_example :
    ((round queue world).0 ≡ done)
    × In
        (record first_row {
          status = succeeded;
          attempt_count = 1;
          lease_token = none;
          leased_until = none;
          started_at = some (stamp start);
          completed_at = some (stamp start);
          last_error = none;
        })
        (round queue world).1.db.jobs
unfolding text_eq lookup
round_success_example =
    round_success queue nothing_to_do store
      (record store { jobs = (claim_rows (ascii "t") start two_rows).0 }) start start 0 0
      (ascii "t") [] [] first_row (refl, (refl, tt)) (refl, (refl, tt)) first_is_due
      (parse_stamp-stamp 0) (parse_stamp-stamp 0) (omega arith) refl refl refl

-- A job that four attempts have failed.
abbrev tried_row : JobRow
tried_row = record first_row { attempt_count = 4 }

abbrev tried : Database
tried = record empty_database { jobs = tried_row ∷ [] }

abbrev out_of_order : Handler
out_of_order job w = (some other_error, w)

abbrev failing : Queue
failing = record { handlers = (ascii "mail", out_of_order) ∷ []; exhausted = []; started = true }

tried_is_due : first_due start (tried_row ∷ []) ≡ some tried_row
unfolding first_due due row_leb stamp_leb stamp strip digits tens text_leb
tried_is_due = refl

round_failure_example :
    ((round failing (healthy tried start (ascii "t") [])).0 ≡ done)
    × In
        (record tried_row {
          status = failed;
          attempt_count = 5;
          lease_token = none;
          leased_until = none;
          started_at = some (stamp start);
          completed_at = some (stamp start);
          last_error = some (failure_category other_error);
        })
        (round failing (healthy tried start (ascii "t") [])).1.db.jobs
unfolding text_eq lookup
round_failure_example =
    round_failure failing out_of_order tried
      (record tried { jobs = (claim_rows (ascii "t") start (tried_row ∷ [])).0 }) start start 0 0
      (ascii "t") [] [] tried_row other_error (refl, tt) (refl, tt) tried_is_due
      (parse_stamp-stamp 0) (parse_stamp-stamp 0) refl refl refl refl
