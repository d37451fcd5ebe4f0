-- ===== src/Jobs.antt =====
-- internal/jobs/queue.go: the durable queue of background jobs, with leases and retries.
--
-- The methods that touch the table are actions of Exec; `Table` has the effect of each SQL statement on
-- the rows of background_jobs. Handlers are functions of a job and the world, which they may change.
-- Not modelled: the goroutine of Start, run and Close with its ticker and channels (Process is what
-- it calls), the mutexes, logging and telemetry.
pub mod Table
pub mod Order
pub mod Lease
pub mod Rows
pub mod Kept
pub mod Outcome
pub mod Enqueue
pub mod Process
pub mod Registry
mod Tests
use Prim.Native.Nat.{◌-◌}
use dynamis_code_apps_templa.Prelude.{
  ℕ, zero, suc, ◌+◌, ◌*◌, ◌%◌, ◌^◌, ◌≡◌, refl, Bool, true, false, ◌&&◌, ◌||◌, not, Option, none,
  some, List, [], ◌∷◌, Text, Dict, ascii, length, leb, ltb, ◌==◌, if◌then◌else◌, is_nil, is_some,
  text_eq, trim_space, lookup, insert, find, all,
}
use dynamis_code_apps_templa.Clock.{Stamp, second, stamp, parse_stamp}
use dynamis_code_apps_templa.Schema.{JobRow, JobStatus, Database}
use dynamis_code_apps_templa.Exec.{
  Error, database_failure, no_rows, bad_timestamp, invalid_input, handler_failure, Result, ok, err,
  World, Exec, pure, raise, guard, ◌>>=◌, ◌>>◌, query, execute, fresh, End, commit, rollback,
  transact,
}
use Table.{Job, JobError, failure, NewJob, claim_rows, finish_rows, enqueue_rows, max_attempts}

abbrev pub max_kind_length : ℕ
max_kind_length = 100

abbrev pub max_key_length : ℕ
max_key_length = 255

abbrev pub max_payload_bytes : ℕ
max_payload_bytes = 2 ^ 20

abbrev with_jobs : (List JobRow → List JobRow × ℕ) → Database → Database × ℕ
with_jobs write db = let (rows, changed) = write db.jobs in (record db { jobs = rows }, changed)

-- A handler changes the world as it likes and returns an error or none.
abbrev pub Handler : Type 0
Handler = Job → World → Option JobError × World

-- `started` says that the queue has its cancel function: Start was called.
pub record Queue : Type 0 where
  pub handlers : Dict Handler
  pub exhausted : Dict Handler
  pub started : Bool

abbrev pub new_queue : Queue
new_queue = record { handlers = []; exhausted = []; started = false }

-- The reason for which a registration is refused.
pub data RegisterError : Type 0 where
  invalid_handler already_started already_registered not_registered : RegisterError

is_blank : Text → Bool
is_blank t = is_nil (trim_space t)

-- `Register`. A nil handler is none.
unfoldable pub register : Queue → Text → Option Handler → Queue × Option RegisterError
unfolding is_blank
register queue kind none = (queue, some invalid_handler)
register queue kind (some handler) =
    if is_blank kind
    then (queue, some invalid_handler)
    else if queue.started
    then (queue, some already_started)
    else if is_some (lookup kind queue.handlers)
    then (queue, some already_registered)
    else (record queue { handlers = insert kind handler queue.handlers }, none)

unfoldable pub register_exhausted : Queue → Text → Option Handler → Queue × Option RegisterError
unfolding is_blank
register_exhausted queue kind none = (queue, some invalid_handler)
register_exhausted queue kind (some handler) =
    if is_blank kind
    then (queue, some invalid_handler)
    else if queue.started
    then (queue, some already_started)
    else if not (is_some (lookup kind queue.handlers))
    then (queue, some not_registered)
    else if is_some (lookup kind queue.exhausted)
    then (queue, some already_registered)
    else (record queue { exhausted = insert kind handler queue.exhausted }, none)

-- The checks of `EnqueueTx`, with `json.Valid` as an argument.
unfoldable pub valid_input : (Text → Bool) → NewJob → Bool
unfolding is_blank
valid_input json_valid new =
    not (is_blank new.workspace_id)
    && not (is_blank new.kind)
    && leb (length new.kind) max_kind_length
    && not (is_blank new.deduplication_key)
    && leb (length new.deduplication_key) max_key_length
    && not (is_nil new.payload)
    && leb (length new.payload) max_payload_bytes
    && json_valid new.payload

-- `EnqueueTx`, inside the caller's transaction.
unfoldable pub enqueue_tx : (Text → Bool) → NewJob → Exec (Unit {0})
unfolding valid_input fresh execute enqueue_rows
enqueue_tx json_valid new = do
  guard (valid_input json_valid new) invalid_input
  job_id ← fresh
  execute (with_jobs (λ rows. (enqueue_rows job_id new rows, 1)))
  pure tt

parsed : Stamp → Exec ℕ
unfolding parse_stamp
parsed s w = elim (parse_stamp s) [ none ↦ (err bad_timestamp, w) | some t ↦ (ok t, w) ]

-- A NULL does not scan into a string.
not_null : Option Stamp → Exec Stamp
not_null none = raise bad_timestamp
not_null (some s) = pure s

-- The row that the SELECT behind the UPDATE reads, as a Job.
scan_job : Text → Option JobRow → Exec Job
unfolding parsed not_null
scan_job token none = raise no_rows
scan_job token (some r) = do
  started ← not_null r.started_at
  available_at ← parsed r.available_at
  started_at ← parsed started
  created_at ← parsed r.created_at
  pure (record {
    id = r.id;
    workspace_id = r.workspace_id;
    kind = r.kind;
    payload = r.payload;
    attempt_count = r.attempt_count;
    available_at = available_at;
    lease_token = token;
    started_at = some started_at;
    created_at = created_at;
  })

abbrev has_lease : Text → JobRow → Bool
has_lease token r = elim r.lease_token [ none ↦ false | some t ↦ text_eq t token ]

read_claimed : Text → ℕ → Exec (End (Option Job))
unfolding scan_job query
read_claimed token changed =
    if changed == 1
    then (do
      row ← query (λ db. find (has_lease token) db.jobs)
      job ← scan_job token row
      pure (commit (some job)))
    else pure (rollback none)

-- The job that `claim` leases, or none where no job is due.
unfoldable pub claim : Exec (Option Job)
unfolding fresh transact execute read_claimed claim_rows
claim w =
    let now = w.now in
    (do
      token ← fresh
      transact
          (do changed ← execute (with_jobs (claim_rows token now)); read_claimed token changed))
      w

unfoldable pub finish : Job → Option JobError → Exec (Unit {0})
unfolding execute finish_rows
finish job result w =
    (execute (with_jobs (λ rows. (finish_rows job result w.now rows, 1))) >>= λ n. pure tt) w

-- How one round of `Process` ends.
pub data Round : Type 0 where
  idle done : Round
  stopped : Error → Round

close_round : Result (Unit {0}) × World → Round × World
close_round (ok u, w) = (done, w)
close_round (err e, w) = (stopped e, w)

run_exhausted : Option Handler → Job → World → Option JobError × World
run_exhausted none job w = (none, w)
run_exhausted (some handler) job w = handler job w

close_exhausted : Job → Option JobError → World → Round × World
unfolding close_round finish
close_exhausted job (some e) w = (stopped handler_failure, w)
close_exhausted job none w =
    close_round (finish job (some (failure (ascii "attempts-exhausted"))) w)

run_job : Queue → Job → Option Handler → World → Round × World
unfolding close_round finish run_exhausted close_exhausted
run_job queue job none w = close_round (finish job (some (failure (ascii "handler-unavailable"))) w)
run_job queue job (some handler) w =
    if ltb max_attempts job.attempt_count
    then (let (result, w') = run_exhausted (lookup job.kind queue.exhausted) job w in
        close_exhausted job result w')
    else (let (result, w') = handler job w in close_round (finish job result w'))

run_claimed : Queue → Result (Option Job) → World → Round × World
unfolding run_job
run_claimed queue (err e) w = (stopped e, w)
run_claimed queue (ok none) w = (idle, w)
run_claimed queue (ok (some job)) w = run_job queue job (lookup job.kind queue.handlers) w

-- One round of the loop.
unfoldable pub round : Queue → World → Round × World
unfolding run_claimed claim
round queue w = let (r, w') = claim w in run_claimed queue r w'

-- The loop, with the rounds that are left: how many jobs were processed, and the error that ended it.
unfoldable pub rounds : Queue → ℕ → ℕ → World → (ℕ × Option Error) × World
rounds queue zero processed w = ((processed, none), w)
rounds queue (suc left) processed w =
    let step = round queue w in
    elim step.0 [
      | idle ↦ ((processed, none), step.1)
      | done ↦ rounds queue left (suc processed) step.1
      | stopped e ↦ ((processed, some e), step.1)
    ]

unfoldable pub process : Queue → ℕ → World → (ℕ × Option Error) × World
unfolding rounds
process queue limit w = if ltb limit 1 then ((0, some invalid_input), w) else rounds queue limit 0 w
