-- ===== src/Jobs/Process.antt =====
-- The actions of the queue: what a claim hands out, and how Process ends.
use dynamis_code_apps_templa.Prelude.{
  ℕ, zero, suc, ◌+◌, ◌<◌, ◌≤◌, ◌≡◌, ◌≢◌, refl, sym, ap, Bool, true, false, inl, inr, Option, none,
  some, List, [], ◌∷◌, Text, arith, All, All-In, All-map, In, find, text_eq_refl, find_sound, subst,
  ◌∙◌, Option-cases, Bool-cases, UniqueBy, text_key, lookup, leb, ltb, update_where,
}
use mathlib.Core.Path.{fun_ext}
use dynamis_code_apps_templa.Clock.{Stamp, stamp, parse_stamp}
use dynamis_code_apps_templa.Clock.RoundTrip.{parse_stamp-stamp}
use dynamis_code_apps_templa.Schema.{JobRow, succeeded, failed, Database}
use dynamis_code_apps_templa.Exec.{ok, World, pure}
use dynamis_code_apps_templa.Jobs.Table.{
  Job, first_due, start_lease, is_chosen, claim_rows, is_held, end_lease, outcome, max_attempts,
  JobError, failure_category,
}
use dynamis_code_apps_templa.Jobs.Order.{first_due-IsClaimable}
use dynamis_code_apps_templa.Jobs.Lease.{claim_rows-some, claimed_row}
use dynamis_code_apps_templa.Jobs.{
  Queue, Handler, claim, done, round, rounds, process, has_lease, parsed,
}

rounds-le :
    (queue : Queue) (left processed : ℕ) (w : World)
    → (rounds queue left processed w).0.0 ≤ processed + left
unfolding rounds
rounds-le queue zero processed w = omega arith
rounds-le queue (suc left) processed w =
    ground (arith, rounds-le queue left (suc processed) (round queue w).1)

-- `Process` never reports more jobs than it was allowed to take.
pub process-le : (queue : Queue) (limit : ℕ) (w : World) → (process queue limit w).0.0 ≤ limit
unfolding process
process-le queue limit w = ground (arith, rounds-le queue limit 0 w)

-- A world in which the database works and the random source answers `token` next.
abbrev pub healthy : Database → ℕ → Text → List (Option Text) → World
healthy db now token es = record { db = db; now = now; faults = []; entropy = some token ∷ es }

abbrev pub IsUnused : Text → List JobRow → Type 0
IsUnused token rows = All (λ r. has_lease token r ≡ false) rows

find-In : (p : JobRow → Bool) (rows : List JobRow) {r : JobRow} → find p rows ≡ some r → In r rows
find-In p [] h = cc
find-In p (x ∷ xs) {r} h = elim (Bool-cases (p x)) [
  | inl hit ↦ let e : some x ≡ some r = rw hit at h in inl (cc e)
  | inr miss ↦ inr (find-In p xs (rw miss at h))
]

find-ne-none :
    (p : JobRow → Bool) (rows : List JobRow) (r : JobRow)
    → In r rows
    → p r ≡ true
    → find p rows ≢ none
find-ne-none p [] r m h e = absurd m
find-ne-none p (x ∷ xs) r (inl same) h e =
    let hit : p x ≡ true = subst (λ y. p y ≡ true) (sym same) h in
    let found : some x ≡ none = rw hit at e in cc found
find-ne-none p (x ∷ xs) r (inr m) h e = elim (Bool-cases (p x)) [
  | inl hit ↦ let found : some x ≡ none = rw hit at e in cc found
  | inr miss ↦ find-ne-none p xs r m h (rw miss at e)
]

In-updated :
    (p : JobRow → Bool) (f : JobRow → JobRow) (r : JobRow) (rows : List JobRow)
    → p r ≡ true
    → In r rows
    → In (f r) (update_where p f rows)
In-updated p f r [] hit m = m
In-updated p f r (x ∷ xs) hit (inl e) = inl (rw (subst (λ y. p y ≡ true) (sym e) hit) (ap f e))
In-updated p f r (x ∷ xs) hit (inr m) = inr (In-updated p f r xs hit m)

module _ (token : Text) (now : ℕ) (rows : List JobRow) (c : JobRow) (u : UniqueBy (λ r. r.id) rows)
    (first : first_due now rows ≡ some c) (unused : IsUnused token rows) where
  leased-In : In (start_lease token now c) (claim_rows token now rows).0
  leased-In =
      let k = first_due-IsClaimable now rows c first in
      rw (claim_rows-some token now rows c u first) (
        In-updated (is_chosen now c) (start_lease token now) c rows
          (rw (text_eq_refl c.id) k.is_due) k.stored)

  only_leased :
      All
        (λ r. has_lease token r ≡ true → r ≡ start_lease token now c)
        (claim_rows token now rows).0
  only_leased =
      claimed_row token now rows c u first
        (λ r. has_lease token r ≡ true → r ≡ start_lease token now c) (λ _. refl)
        (All-map _ _ rows (λ r no ne yes_lease. cc (no, yes_lease)) unused)

  -- The SELECT by the lease token reads the row that the UPDATE has leased.
  find_claimed :
      find (has_lease token) (claim_rows token now rows).0 ≡ some (start_lease token now c)
  find_claimed = elim (Option-cases (find (has_lease token) (claim_rows token now rows).0)) [
    | inl nothing ↦ absurd (
        find-ne-none (has_lease token) (claim_rows token now rows).0 (start_lease token now c)
          leased-In (text_eq_refl token) nothing)
    | inr (r, found) ↦
        found
        ∙ ap some (
            All-In _ r (claim_rows token now rows).0 only_leased
              (find-In (has_lease token) (claim_rows token now rows).0 found)
              (find_sound (has_lease token) (claim_rows token now rows).0 found))
  ]

-- The job that a claim of `c` hands out.
abbrev pub job_of : JobRow → Text → ℕ → ℕ → ℕ → Job
job_of c token now available created = record {
  id = c.id;
  workspace_id = c.workspace_id;
  kind = c.kind;
  payload = c.payload;
  attempt_count = c.attempt_count + 1;
  available_at = available;
  lease_token = token;
  started_at = some now;
  created_at = created;
}

parsed_lem : (s : Stamp) (t : ℕ) → parse_stamp s ≡ some t → parsed s ≡ pure t
unfolding parsed
parsed_lem s t h = fun_ext λ w. rw (h, parsed) refl

-- A claim in a healthy world hands out the first due job, with one attempt more, and leases its row.
pub claim-healthy :
    (db : Database) (now available created : ℕ) (token : Text) (es : List (Option Text))
    (c : JobRow)
    → UniqueBy (λ r. r.id) db.jobs
    → IsUnused token db.jobs
    → first_due now db.jobs ≡ some c
    → parse_stamp c.available_at ≡ some available
    → parse_stamp c.created_at ≡ some created
    → claim (healthy db now token es) ≡ (
      ok (some (job_of c token now available created)),
      record {
        db = record db { jobs = (claim_rows token now db.jobs).0 };
        now = now;
        faults = [];
        entropy = es;
      },
    )
unfolding claim
claim-healthy db now available created token es c u unused first a b =
    let found = find_claimed token now db.jobs c u first unused in
    let selected : find (has_lease token)
          (update_where (is_chosen now c) (start_lease token now) db.jobs)
        ≡ some (start_lease token now c) =
      rw (claim_rows-some token now db.jobs c u first) at found in
    rw
      (
        claim_rows-some token now db.jobs c u first,
        selected,
        parsed_lem c.available_at available a,
        parsed_lem (stamp now) now (parse_stamp-stamp now),
        parsed_lem c.created_at created b,
      )
      refl

held_own :
    (token : Text) (now available created : ℕ) (c : JobRow)
    → is_held (job_of c token now available created) (start_lease token now c) ≡ true
unfolding is_held
held_own token now available created c = rw (text_eq_refl c.id, text_eq_refl token) refl

-- In a world where the database works, the ids of the jobs are unique, no row has the lease token that
-- is drawn, and the stored times of the first due job parse: a round whose handler for that job is
-- registered, is called with fewer than five attempts behind the job, succeeds, and leaves the queue's
-- table alone and the database working, is done, and the job's row is stored as succeeded at that time,
-- with one attempt more, without a lease and without an error.
pub round_success :
    (queue : Queue) (handler : Handler) (db db' : Database) (now now' available created : ℕ)
    (token : Text) (es es' : List (Option Text)) (c : JobRow)
    → UniqueBy (λ r. r.id) db.jobs
    → IsUnused token db.jobs
    → first_due now db.jobs ≡ some c
    → parse_stamp c.available_at ≡ some available
    → parse_stamp c.created_at ≡ some created
    → c.attempt_count < 5
    → lookup c.kind queue.handlers ≡ some handler
    → handler (job_of c token now available created) (record {
      db = record db { jobs = (claim_rows token now db.jobs).0 };
      now = now;
      faults = [];
      entropy = es;
    })
      ≡ (none, record { db = db'; now = now'; faults = []; entropy = es' })
    → db'.jobs ≡ (claim_rows token now db.jobs).0
    → ((round queue (healthy db now token es)).0 ≡ done)
      × In
          (record c {
            status = succeeded;
            attempt_count = c.attempt_count + 1;
            lease_token = none;
            leased_until = none;
            started_at = some (stamp now);
            completed_at = some (stamp now');
            last_error = none;
          })
          (round queue (healthy db now token es)).1.db.jobs
unfolding round outcome
round_success queue handler db db' now now' available created token es es' c u unused first a b left
      registered handled kept =
    let claimed = claim-healthy db now available created token es c u unused first a b in
    let not_exhausted : ltb max_attempts (c.attempt_count + 1) ≡ false = ground arith in
    rw (claimed, registered, not_exhausted, handled, kept)
      (
        refl,
        In-updated (is_held (job_of c token now available created)) _ (start_lease token now c)
            (claim_rows token now db.jobs).0 (held_own token now available created c)
            (leased-In token now db.jobs c u first unused),
      )

-- The fifth failure is final. In a world where the database works, the ids of the jobs are unique, no
-- row has the lease token that is drawn, and the stored times of the first due job parse: a round whose
-- handler for that job is registered, is called with four attempts behind the job, fails, and leaves the
-- queue's table alone and the database working, is done, and the job's row is stored as failed at that
-- time, with five attempts, without a lease and with the category of the error.
pub round_failure :
    (queue : Queue) (handler : Handler) (db db' : Database) (now now' available created : ℕ)
    (token : Text) (es es' : List (Option Text)) (c : JobRow) (e : JobError)
    → UniqueBy (λ r. r.id) db.jobs
    → IsUnused token db.jobs
    → first_due now db.jobs ≡ some c
    → parse_stamp c.available_at ≡ some available
    → parse_stamp c.created_at ≡ some created
    → c.attempt_count ≡ 4
    → lookup c.kind queue.handlers ≡ some handler
    → handler (job_of c token now available created) (record {
      db = record db { jobs = (claim_rows token now db.jobs).0 };
      now = now;
      faults = [];
      entropy = es;
    })
      ≡ (some e, record { db = db'; now = now'; faults = []; entropy = es' })
    → db'.jobs ≡ (claim_rows token now db.jobs).0
    → ((round queue (healthy db now token es)).0 ≡ done)
      × In
          (record c {
            status = failed;
            attempt_count = c.attempt_count + 1;
            lease_token = none;
            leased_until = none;
            started_at = some (stamp now);
            completed_at = some (stamp now');
            last_error = some (failure_category e);
          })
          (round queue (healthy db now token es)).1.db.jobs
unfolding round outcome
round_failure queue handler db db' now now' available created token es es' c e u unused first a b
      left registered handled kept =
    let claimed = claim-healthy db now available created token es c u unused first a b in
    let not_exhausted : ltb max_attempts (c.attempt_count + 1) ≡ false = ground arith in
    let spent : leb max_attempts (c.attempt_count + 1) ≡ true = ground arith in
    let stored =
      In-updated (is_held (job_of c token now available created))
        (end_lease (outcome (c.attempt_count + 1) (some e) now') now') (start_lease token now c)
        (claim_rows token now db.jobs).0 (held_own token now available created c)
        (leased-In token now db.jobs c u first unused) in
    rw (claimed, registered, not_exhausted, handled, kept, spent) (refl, rw spent at stored)
