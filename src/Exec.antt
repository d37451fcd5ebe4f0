-- ===== src/Exec.antt =====
-- Code that talks to the database. An action takes the world and returns its result beside the
-- world that it leaves.
--
-- What the program does not decide stands in the world: the clock (`now`), which statements the
-- database refuses (`faults`, one entry for each statement, BEGIN and COMMIT included; none left
-- means no more faults) and what the random source answers (`entropy`; none means an error).
pub mod Atomic
pub mod Keeps
use dynamis_code_apps_templa.Prelude.{
  ℕ, Bool, true, false, Option, none, some, List, [], ◌∷◌, Text, if◌then◌else◌, ◌≡◌, ◌⊎◌, inl, inr,
  refl, arith,
}
use dynamis_code_apps_templa.Schema.{Database}

pub data Error : Type 0 where
  database_failure entropy_failure no_rows bad_timestamp : Error
  forbidden invalid_input not_found precondition_failed limit_reached : Error
  idempotency_conflict unavailable handler_failure : Error
  last_owner mfa_required already_bootstrapped invalid_credentials invalid_session : Error
  invalid_cursor invalid_json invalid_invitation active_invitation : Error

pub data Result {ℓ} (A : Type ℓ) : Type ℓ where
  ok : A → Result A
  err : Error → Result A

pub Result-cases {ℓ} :
    {A : Type ℓ} (r : Result A) → ((a : A) × (r ≡ ok a)) ⊎ ((e : Error) × (r ≡ err e))
Result-cases (ok a) = inl (a, refl)
Result-cases (err e) = inr (e, refl)

pub record World : Type 0 where
  pub db : Database
  pub now : ℕ
  pub faults : List Bool
  pub entropy : List (Option Text)

abbrev pub Exec : Type 0 → Type 0
Exec A = World → Result A × World

module _ {A : Type 0} where
  abbrev pub pure : A → Exec A
  pure a w = (ok a, w)

  abbrev pub raise : Error → Exec A
  raise e w = (err e, w)

module _ {A B : Type 0} where
  abbrev pub continue : Result A → (A → Exec B) → Exec B
  continue (ok a) f w = f a w
  continue (err e) f w = (err e, w)

  -- An action that succeeds has succeeded at its first step, and is the rest of it from there.
  pub continue-ok :
      (r : Result A) (f : A → Exec B) (w : World) {b : B}
      → (continue r f w).0 ≡ ok b
      → (a : A) × (r ≡ ok a) × (continue r f w ≡ f a w)
  continue-ok (ok a) f w h = (a, refl, refl)
  continue-ok (err e) f w h = absurd (ground arith)

  infixl 5 ◌>>=◌ ◌>>◌
  abbrev pub ◌>>=◌ : Exec A → (A → Exec B) → Exec B
  ◌>>=◌ m f w = let (r, w') = m w in continue r f w'

  abbrev pub ◌>>◌ : Exec A → Exec B → Exec B
  m >> n = m >>= λ _. n

abbrev pub guard : Bool → Error → Exec (Unit {0})
guard true e w = (ok tt, w)
guard false e w = (err e, w)

-- Whether the next statement is refused, and the faults behind it.
abbrev pub refused : List Bool → Bool
refused [] = false
refused (b ∷ bs) = b

abbrev pub behind : List Bool → List Bool
behind [] = []
behind (b ∷ bs) = bs

module _ {A : Type 0} where
  -- One SQL statement: it fails and changes nothing, or it runs.
  unfoldable pub statement : (Database → Result A × Database) → Exec A
  statement run w =
      let w' = record w { faults = behind w.faults } in
      if refused w.faults
      then (err database_failure, w')
      else (let (r, db) = run w.db in (r, record w' { db = db }))

  -- A SELECT.
  unfoldable pub query : (Database → A) → Exec A
  unfolding statement
  query read = statement (λ db. (ok (read db), db))

-- An INSERT, UPDATE or DELETE, with the number of rows that it changed.
unfoldable pub execute : (Database → Database × ℕ) → Exec ℕ
unfolding statement
execute write = statement (λ db. let (db', changed) = write db in (ok changed, db'))

-- `s.now()`.
abbrev pub clock : Exec ℕ
clock w = (ok w.now, w)

-- A result that the database has no part in.
abbrev pub lift : {A : Type 0} → Result A → Exec A
lift r w = (r, w)

-- `id.New` and the secrets: the next answer of the random source.
abbrev draw : List (Option Text) → Result Text
draw [] = err entropy_failure
draw (none ∷ es) = err entropy_failure
draw (some t ∷ es) = ok t

abbrev undrawn : List (Option Text) → List (Option Text)
undrawn [] = []
undrawn (e ∷ es) = es

unfoldable pub fresh : Exec Text
fresh w = (draw w.entropy, record w { entropy = undrawn w.entropy })

-- How the body of a transaction ends when it does not fail: it goes on to COMMIT, or it returns
-- and leaves the deferred ROLLBACK to run.
pub data End (A : Type 0) : Type 0 where
  commit : A → End A
  rollback : A → End A

module _ {A : Type 0} where
  unfoldable pub close : Database → Result (End A) → Exec A
  unfolding statement
  close before (err e) w = (err e, record w { db = before })
  close before (ok (rollback a)) w = (ok a, record w { db = before })
  close before (ok (commit a)) w =
      let (r, w') = statement (λ db. (ok a, db)) w in
      elim r [ ok x ↦ (ok x, w') | err e ↦ (err e, record w' { db = before }) ]

  unfoldable pub begun : Exec (End A) → Exec (End A)
  unfolding statement
  begun body = statement (λ db. (ok tt, db)) >>= λ (u : Unit {0}). body

  -- BEGIN, the body, and COMMIT or ROLLBACK.
  unfoldable pub transact : Exec (End A) → Exec A
  unfolding close begun
  transact body w = let (r, w') = begun body w in close w.db r w'
