-- ===== src/Jobs/Lease.antt =====
-- Leases: a claimed job is left alone until its lease is over, and a worker that has lost its lease
-- changes nothing.
use dynamis_code_apps_templa.Prelude.{
  ℕ, ◌+◌, ◌≤◌, ◌≡◌, ◌≢◌, refl, false, ◌⊎◌, inl, inr, Option, none, some, List, [], ◌∷◌, Text, arith,
  All, update_where, text_eq, text_eq_iff, text_eq_refl, Bool-cases, Option-cases, All-updated,
  All-map₂, update_where-All, sym, ◌∙◌, UniqueBy, count_unique, text_key, unique_row, All-In,
  if◌then◌else◌,
}
use dynamis_code_apps_templa.Clock.{second}
use dynamis_code_apps_templa.Clock.Order.{stamp_leb-lt}
use dynamis_code_apps_templa.Schema.{JobRow}
use dynamis_code_apps_templa.Jobs.Table.{
  Job, JobError, due, first_due, start_lease, is_chosen, claim_rows, is_held, finish_rows,
  lease_duration,
}
use dynamis_code_apps_templa.Jobs.Order.{IsClaimable, first_due-IsClaimable, first_due-none}

-- A row that was leased at `now` is not due again for a minute, less the second by which the trimmed
-- texts of times may be out of order.
pub start_lease-due :
    (token : Text) (now later : ℕ) (r : JobRow)
    → later + second ≤ now + lease_duration
    → due later (start_lease token now r) ≡ false
unfolding due
start_lease-due token now later r h = ground (arith, stamp_leb-lt (now + lease_duration) later)

-- `claim` where a job is due.
pub claim_rows-some :
    (token : Text) (now : ℕ) (rows : List JobRow) (c : JobRow)
    → UniqueBy (λ r. r.id) rows
    → first_due now rows ≡ some c
    → claim_rows token now rows ≡ (update_where (is_chosen now c) (start_lease token now) rows, 1)
unfolding claim_rows
claim_rows-some token now rows c u h =
    let k = first_due-IsClaimable now rows c h in
    rw (h, count_unique (λ r. r.id) (due now) c rows u k.stored k.is_due) refl

pub claim_rows-none :
    (token : Text) (now : ℕ) (rows : List JobRow)
    → first_due now rows ≡ none
    → claim_rows token now rows ≡ (rows, 0)
unfolding claim_rows
claim_rows-none token now rows h = rw h refl

-- One `claim` either finds no due job and changes nothing, or it leases exactly one row: one that is
-- due and before which no due row stands.
pub claim_takes_first :
    (token : Text) (now : ℕ) (rows : List JobRow)
    → UniqueBy (λ r. r.id) rows
    → All (λ r. due now r ≡ false) rows × (claim_rows token now rows ≡ (rows, 0))
      ⊎ ((c : JobRow) × IsClaimable now c rows
          × (claim_rows token now rows
              ≡ (update_where (is_chosen now c) (start_lease token now) rows, 1)))
claim_takes_first token now rows u = elim (Option-cases (first_due now rows)) [
  | inl nothing ↦ inl (first_due-none now rows nothing, claim_rows-none token now rows nothing)
  | inr (c, h) ↦ inr (c, first_due-IsClaimable now rows c h, claim_rows-some token now rows c u h)
]

-- What a claim of `c` leaves of each row: the row of `c` leased, the others as they were.
module _ (token : Text) (now : ℕ) (rows : List JobRow) (c : JobRow) (u : UniqueBy (λ r. r.id) rows)
    (first : first_due now rows ≡ some c) where
  claimed_one :
      (P : JobRow → Type 0) (x : JobRow)
      → P (start_lease token now c)
      → (x.id ≡ c.id → x ≡ c)
      → (x.id ≢ c.id → P x)
      → P (if is_chosen now c x then start_lease token now x else x)
  claimed_one P x leased same other = elim (Bool-cases (text_eq x.id c.id)) [
    | inl hit ↦
        let same_row : x ≡ c = same ((text_eq_iff x.id c.id).0 hit) in
        rw (same_row, text_eq_refl c.id, (first_due-IsClaimable now rows c first).is_due) leased
    | inr miss ↦ rw miss (other (λ e. ground (arith, text_eq_iff x.id c.id)))
  ]

  pub claimed_row :
      (P : JobRow → Type 0)
      → P (start_lease token now c)
      → All (λ r. r.id ≢ c.id → P r) rows
      → All P (claim_rows token now rows).0
  claimed_row P leased others = rw (claim_rows-some token now rows c u first) (
      All-updated P (is_chosen now c) (start_lease token now) rows (
        All-map₂ _ _ _ rows (λ x. claimed_one P x leased)
          (unique_row (λ r. r.id) c rows u (first_due-IsClaimable now rows c first).stored) others))

All-rows : {P : JobRow → Type 0} → ((r : JobRow) → P r) → (rows : List JobRow) → All P rows
All-rows f [] = tt
All-rows f (r ∷ rs) = (f r, All-rows f rs)

-- While the lease of a claimed job runs, less the second by which the trimmed texts of times may be out
-- of order, another claim takes another job.
pub claim_exclusive :
    (token : Text) (now later : ℕ) (rows : List JobRow) (c d : JobRow)
    → UniqueBy (λ r. r.id) rows
    → first_due now rows ≡ some c
    → later + second ≤ now + lease_duration
    → first_due later (claim_rows token now rows).0 ≡ some d
    → d.id ≢ c.id
claim_exclusive token now later rows c d u first soon next same =
    let k = first_due-IsClaimable later (claim_rows token now rows).0 d next in
    let leased : All (λ r. r.id ≡ c.id → due later r ≡ false) (claim_rows token now rows).0 =
      claimed_row token now rows c u first (λ r. r.id ≡ c.id → due later r ≡ false)
        (λ _. start_lease-due token now later c soon) (All-rows (λ r ne e. absurd (ne e)) rows) in
    cc (k.is_due, All-In _ d (claim_rows token now rows).0 leased k.stored same)

held_by_other :
    (job : Job) (token : Text) (now : ℕ) (c : JobRow)
    → job.lease_token ≢ token
    → is_held job (start_lease token now c) ≡ false
unfolding is_held
held_by_other job token now c lost =
    ground (arith, text_eq_iff token job.lease_token, λ (e : token ≡ job.lease_token). lost (sym e))

held_other_row : (job : Job) (r : JobRow) → r.id ≢ job.id → is_held job r ≡ false
unfolding is_held
held_other_row job r ne = ground (arith, text_eq_iff r.id job.id)

-- A worker whose job has been claimed again under another lease token can no longer report a result:
-- its `finish` changes no row.
pub finish_stale :
    (token : Text) (now later : ℕ) (rows : List JobRow) (c : JobRow) (job : Job)
    (result : Option JobError)
    → UniqueBy (λ r. r.id) rows
    → first_due now rows ≡ some c
    → job.id ≡ c.id
    → job.lease_token ≢ token
    → finish_rows job result later (claim_rows token now rows).0 ≡ (claim_rows token now rows).0
unfolding finish_rows
finish_stale token now later rows c job result u first same_job lost =
    update_where-All (is_held job) _ (claim_rows token now rows).0 (
      claimed_row token now rows c u first (λ r. is_held job r ≡ false)
        (held_by_other job token now c lost)
        (All-rows (λ r ne. held_other_row job r (λ e. ne (e ∙ same_job))) rows))
