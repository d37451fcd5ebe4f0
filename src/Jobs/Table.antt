-- ===== src/Jobs/Table.antt =====
-- The SQL statements of the queue, as functions of the rows of background_jobs.
use Prim.Native.Nat.{◌-◌}
use dynamis_code_apps_templa.Prelude.{
  ℕ, ◌+◌, ◌*◌, ◌%◌, ◌^◌, Bool, true, false, ◌&&◌, ◌||◌, Option, none, some, List, [], ◌∷◌, ◌++◌,
  Text, ascii, length, leb, ltb, ◌==◌, if◌then◌else◌, is_nil, text_eq, text_leb, count, any, all,
  filter, not, update_where, lex, Triple, has_key, triple_key, text_key,
}
use dynamis_code_apps_templa.Clock.{Stamp, second, stamp, stamp_leb}
use dynamis_code_apps_templa.Schema.{JobRow, JobStatus, pending, running, succeeded, failed}

abbrev pub max_attempts : ℕ
max_attempts = 5

abbrev pub lease_duration : ℕ
lease_duration = 60 * second

abbrev pub initial_retry : ℕ
initial_retry = second

-- What a handler gets.
pub record Job : Type 0 where
  pub id : Text
  pub workspace_id : Text
  pub kind : Text
  pub payload : Text
  pub attempt_count : ℕ
  pub available_at : ℕ
  pub lease_token : Text
  pub started_at : Option ℕ
  pub created_at : ℕ

-- A handler's error: a Failure with its category, or any other error.
pub data JobError : Type 0 where
  failure : Text → JobError
  other_error : JobError

abbrev pub is_pending : JobStatus → Bool
is_pending pending = true
is_pending _ = false

abbrev pub is_running : JobStatus → Bool
is_running running = true
is_running _ = false

abbrev pub is_finished : JobStatus → Bool
is_finished succeeded = true
is_finished failed = true
is_finished _ = false

abbrev is_over : Option Stamp → ℕ → Bool
is_over none now = false
is_over (some until) now = stamp_leb until (stamp now)

-- (status = 'pending' AND available_at <= now) OR
-- (status = 'running' AND leased_until IS NOT NULL AND leased_until <= now)
unfoldable pub due : ℕ → JobRow → Bool
due now r =
    (is_pending r.status && stamp_leb r.available_at (stamp now))
    || (is_running r.status && is_over r.leased_until now)

-- ORDER BY available_at, created_at, id
unfoldable pub row_leb : JobRow → JobRow → Bool
row_leb r s =
    lex (stamp_leb r.available_at s.available_at) (stamp_leb s.available_at r.available_at) (
      lex (stamp_leb r.created_at s.created_at) (stamp_leb s.created_at r.created_at)
        (text_leb r.id s.id))

-- The smaller of a row and the best of the rows behind it.
abbrev pub smaller : JobRow → Option JobRow → JobRow
smaller r none = r
smaller r (some s) = if row_leb r s then r else s

-- SELECT … WHERE due ORDER BY … LIMIT 1
unfoldable pub first_due : ℕ → List JobRow → Option JobRow
first_due now [] = none
first_due now (r ∷ rs) =
    let rest = first_due now rs in if due now r then some (smaller r rest) else rest

abbrev pub start_lease : Text → ℕ → JobRow → JobRow
start_lease token now r = record r {
  status = running;
  attempt_count = r.attempt_count + 1;
  lease_token = some token;
  leased_until = some (stamp (now + lease_duration));
  started_at = some (stamp now);
  completed_at = none;
}

abbrev pub is_chosen : ℕ → JobRow → JobRow → Bool
is_chosen now c r = text_eq r.id c.id && due now r

claim_chosen : Text → ℕ → List JobRow → Option JobRow → List JobRow × ℕ
claim_chosen token now rows none = (rows, 0)
claim_chosen token now rows (some c) =
    (update_where (is_chosen now c) (start_lease token now) rows, count (is_chosen now c) rows)

-- The UPDATE of `claim`, with the number of rows that it changed.
unfoldable pub claim_rows : Text → ℕ → List JobRow → List JobRow × ℕ
unfolding claim_chosen first_due
claim_rows token now rows = claim_chosen token now rows (first_due now rows)

-- `retryDelay`: a shift of a 64-bit integer, then a 64-bit product.
unfoldable pub retry_delay : ℕ → ℕ
retry_delay attempt =
    let attempt' = if ltb attempt 1 then 1 else attempt in
    (initial_retry * (2 ^ (attempt' - 1) % 2 ^ 64)) % 2 ^ 64

abbrev is_category_byte : ℕ → Bool
is_category_byte c = (leb b'a' c && leb c b'z') || c == b'-'

unfoldable pub valid_category : Text → Bool
valid_category value =
    if is_nil value || ltb 64 (length value) then false else all is_category_byte value

unfoldable pub failure_category : JobError → Text
unfolding valid_category
failure_category (failure category) =
    if valid_category category then category else ascii "handler-error"
failure_category other_error = ascii "handler-error"

pub record Outcome : Type 0 where
  pub status : JobStatus
  pub last_error : Option Text
  pub next : Option Stamp

-- What `finish` writes: success, another attempt later, or the final failure.
unfoldable pub outcome : ℕ → Option JobError → ℕ → Outcome
unfolding failure_category retry_delay
outcome attempt none now = record { status = succeeded; last_error = none; next = none }
outcome attempt (some e) now =
    if leb max_attempts attempt
    then record { status = failed; last_error = some (failure_category e); next = none }
    else record {
      status = pending;
      last_error = some (failure_category e);
      next = some (stamp (now + retry_delay attempt));
    }

abbrev pub coalesce : Option Stamp → Stamp → Stamp
coalesce none s = s
coalesce (some t) s = t

abbrev pub end_lease : Outcome → ℕ → JobRow → JobRow
end_lease o now r = record r {
  status = o.status;
  available_at = coalesce o.next r.available_at;
  lease_token = none;
  leased_until = none;
  completed_at = if is_finished o.status then some (stamp now) else none;
  last_error = o.last_error;
}

abbrev has_token : Option Text → Text → Bool
has_token none token = false
has_token (some t) token = text_eq t token

-- WHERE id = ? AND status = 'running' AND lease_token = ?
unfoldable pub is_held : Job → JobRow → Bool
is_held job r =
    text_eq r.id job.id && is_running r.status && has_token r.lease_token job.lease_token

-- The UPDATE of `finish`.
unfoldable pub finish_rows : Job → Option JobError → ℕ → List JobRow → List JobRow
unfolding outcome is_held
finish_rows job result now rows =
    update_where (is_held job) (end_lease (outcome job.attempt_count result now) now) rows

pub record NewJob : Type 0 where
  pub workspace_id : Text
  pub kind : Text
  pub deduplication_key : Text
  pub payload : Text
  pub available_at : ℕ

-- UNIQUE (workspace_id, kind, deduplication_key)
abbrev pub dedup_key : JobRow → Triple
dedup_key r = (r.workspace_id, r.kind, r.deduplication_key)

abbrev pub new_key : NewJob → Triple
new_key new = (new.workspace_id, new.kind, new.deduplication_key)

unfoldable pub is_duplicate : NewJob → JobRow → Bool
is_duplicate new r = has_key dedup_key (new_key new) r

abbrev pub new_row : Text → NewJob → JobRow
new_row job_id new = record {
  id = job_id;
  workspace_id = new.workspace_id;
  kind = new.kind;
  deduplication_key = new.deduplication_key;
  payload = new.payload;
  status = pending;
  attempt_count = 0;
  available_at = stamp new.available_at;
  lease_token = none;
  leased_until = none;
  started_at = none;
  completed_at = none;
  last_error = none;
  created_at = stamp new.available_at;
}

-- INSERT … ON CONFLICT (workspace_id, kind, deduplication_key) DO NOTHING
unfoldable pub enqueue_rows : Text → NewJob → List JobRow → List JobRow
unfolding is_duplicate
enqueue_rows job_id new rows =
    if any (is_duplicate new) rows then rows else rows ++ new_row job_id new ∷ []

abbrev pub history_retention : ℕ
history_retention = 365 * 24 * 3600 * second

-- status IN ('succeeded', 'failed') AND completed_at <= now - 365 days. In the first year after the epoch
-- the latter is a time before the epoch, and so before every stored one.
unfoldable pub is_stale : ℕ → JobRow → Bool
is_stale now r =
    is_finished r.status
    && leb history_retention now
    && is_over r.completed_at (now - history_retention)

-- The DELETE of the maintenance.
unfoldable pub prune_rows : ℕ → List JobRow → List JobRow
unfolding is_stale
prune_rows now rows = filter (λ r. not (is_stale now r)) rows
