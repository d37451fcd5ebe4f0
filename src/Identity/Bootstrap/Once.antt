-- ===== src/Identity/Bootstrap/Once.antt =====
-- internal/identity/service.go: an instance is bootstrapped once, and its first workspace has one owner.
use dynamis_code_apps_templa.Prelude.{
  ℕ, ◌≡◌, refl, ◌||◌, not, none, some, Text, arith, length, ltb, is_nil, inl, inr, ◌⊎◌, Bool-cases,
  ap, ◌∙◌,
}
use dynamis_code_apps_templa.Schema.{UserRow, WorkspaceRow, AuditContext, Database}
use dynamis_code_apps_templa.Exec.{
  Error, Result, Result-cases, ok, err, World, End, commit, guard, clock, invalid_input, ◌>>=◌,
  fresh, transact,
}
use dynamis_code_apps_templa.Exec.Atomic.{transact-unchanged, transact-ok, transact_post}
use dynamis_code_apps_templa.Exec.Keeps.{Keeps-transact, guard-same, step-cases}
use dynamis_code_apps_templa.Identity.Members.Owners.{OneOwner}
use dynamis_code_apps_templa.Identity.Members.Single.{Single}
use dynamis_code_apps_templa.Identity.Workspaces.{validate_workspace_name, default_locale}
use dynamis_code_apps_templa.Identity.Bootstrap.{
  Codec, BootstrapInput, BootstrapResult, normalize_email, hash_password, bootstrap_body,
  bootstrap_first_owner,
}
use dynamis_code_apps_templa.Identity.Bootstrap.Body.{bootstrap_body-ok, bootstrap_body-claimed}

pub hash_password-calm :
    (c : Codec) (password : Text) (w : World)
    → ((hash_password c password w).1.db ≡ w.db) × ((hash_password c password w).1.now ≡ w.now)
unfolding hash_password fresh
hash_password-calm c password w = elim (Bool-cases (is_nil password)) [
  | inl empty ↦ (ground arith, ground arith)
  | inr some_text ↦ elim (Result-cases (fresh w).0) [
    | inl (salt, drawn) ↦ (ground arith, ground arith)
    | inr (e, failed) ↦ (ground arith, ground arith)
  ]
]

module _ (context : AuditContext) (c : Codec) (input : BootstrapInput) (w : World) where
  -- A bootstrap fails before its transaction, or is its transaction.
  IsRun : Result BootstrapResult × World → Type 0
  IsRun out =
      ((e : Error) × (out.0 ≡ err e) × (out.1.db ≡ w.db))
      ⊎ ((user : UserRow) × (new : WorkspaceRow) × (now : ℕ) × (v : World) × (v.db ≡ w.db)
          × (now ≡ w.now)
          × (out ≡ transact (bootstrap_body context user new now) v))

  -- From the hash of the password on.
  hashed-IsRun :
      (email name tag : Text) (x : World)
      → x.db ≡ w.db
      → x.now ≡ w.now
      → IsRun (
          (hash_password c input.password >>= λ password_hash. fresh >>= λ user_id.
          fresh >>= λ workspace_id. clock >>= λ now. transact (
            bootstrap_body context
              (record {
                id = user_id;
                email = email;
                password_hash = some password_hash;
                email_verified_at = some now;
                created_at = now;
              })
              (record { id = workspace_id; name = name; locale = tag; created_at = now })
              now))
            x)
  unfolding IsRun fresh
  hashed-IsRun email name tag x here time =
      let (calm, still) = hash_password-calm c input.password x in
      let y = (hash_password c input.password x).1 in
      step-cases IsRun (hash_password c input.password) _ x (λ e. inl (e, refl, calm ∙ here))
        (λ password_hash.
          step-cases IsRun fresh _ y (λ e. inl (e, refl, calm ∙ here))
            (λ user_id.
              step-cases IsRun fresh _ (fresh y).1 (λ e. inl (e, refl, calm ∙ here))
                (λ workspace_id. inr (_, _, y.now, _, calm ∙ here, still ∙ time, refl))))

  bootstrap-IsRun : IsRun (bootstrap_first_owner context c input w)
  unfolding IsRun bootstrap_first_owner
  bootstrap-IsRun =
      let strong = not (ltb (length input.password) 12 || ltb 1024 (length input.password)) in
      let same = guard-same strong invalid_input w in
      step-cases IsRun (λ v. (normalize_email c input.email, v)) _ w (λ e. inl (e, refl, refl))
        (λ email.
          step-cases IsRun (λ v. (validate_workspace_name input.workspace_name, v)) _ w
            (λ e. inl (e, refl, refl))
            (λ name.
              step-cases IsRun (λ v. (default_locale c.lower input.workspace_locale, v)) _ w
                (λ e. inl (e, refl, refl))
                (λ tag.
                  step-cases IsRun (guard strong invalid_input) _ w
                    (λ e. inl (e, refl, ap (λ (v : World). v.db) same))
                    (λ u.
                      hashed-IsRun email name tag (guard strong invalid_input w).1
                        (ap (λ (v : World). v.db) same) (ap (λ (v : World). v.now) same)))))

  -- A bootstrap of an instance that is bootstrapped fails and changes nothing.
  bootstrap-claimed :
      {t : ℕ}
      → w.db.bootstrapped ≡ some t
      → (e : Error) × ((bootstrap_first_owner context c input w).0 ≡ err e)
        × ((bootstrap_first_owner context c input w).1.db ≡ w.db)
  unfolding IsRun
  bootstrap-claimed {t} h = elim bootstrap-IsRun [
    | inl failed ↦ failed
    | inr (user, new, now, v, here, time, same) ↦
        elim (Result-cases (transact (bootstrap_body context user new now) v).0) [
          | inr (e, failed) ↦ (
            e,
            ground arith,
            rw same (transact-unchanged (bootstrap_body context user new now) v failed ∙ here),
          )
          | inl (r, done) ↦
              let (x, same', now', ended) =
                transact-ok (bootstrap_body context user new now) v {a = r} done in
              let taken : x.db.bootstrapped ≡ some t =
                ap (λ (d : Database). d.bootstrapped) (same' ∙ here) ∙ h in
              let refused = bootstrap_body-claimed context user new now x taken in
              absurd (elim ended [
                | inl (committed, left) ↦ ground arith
                | inr (rolled, left) ↦ ground arith
              ])
        ]
  ]

  unfoldable pub IsFirst : Database → Type 0
  IsFirst after =
      (w.db.bootstrapped ≡ none)
      × (after.bootstrapped ≡ some w.now)
      × (OneOwner w.db → OneOwner after)

  -- What a bootstrap that succeeds finds and leaves.
  bootstrap-IsFirst :
      {r : BootstrapResult}
      → (bootstrap_first_owner context c input w).0 ≡ ok r
      → IsFirst (bootstrap_first_owner context c input w).1.db
  unfolding IsRun IsFirst
  bootstrap-IsFirst {r} h = elim bootstrap-IsRun [
    | inl (e, failed, same) ↦ absurd (ground arith)
    | inr (user, new, now, v, here, time, same) ↦
        let P : Database → End BootstrapResult → Database → Type 0 = λ before e after.
          (e ≡ commit (record { user_id = user.id; workspace_id = new.id }))
          × (before.bootstrapped ≡ none)
          × (after.bootstrapped ≡ some now)
          × (OneOwner before → OneOwner after) in
        elim (transact_post P (bootstrap_body context user new now)
          (λ x e k. bootstrap_body-ok context user new now x e k) v {a = r} (ground arith)) [
            | inl (_, free, taken, kept) ↦ rw (same, ← here, ← time) (free, taken, kept)
            | inr (kept, after, (never, _, _, _)) ↦ absurd (ground arith)
          ]
  ]

-- A bootstrap that succeeds finds an instance that was not bootstrapped and leaves it bootstrapped at
-- that time, with one owner for each workspace if that held before; and every bootstrap of an instance
-- in the state that it left fails and changes nothing.
pub bootstrap_once :
    (context : AuditContext) (c : Codec) (input : BootstrapInput) (w : World) (r : BootstrapResult)
    → (bootstrap_first_owner context c input w).0 ≡ ok r
    → IsFirst context c input w (bootstrap_first_owner context c input w).1.db
      × ((context' : AuditContext) (c' : Codec) (input' : BootstrapInput) (v : World)
          → v.db.bootstrapped ≡ (bootstrap_first_owner context c input w).1.db.bootstrapped
          → (e : Error) × ((bootstrap_first_owner context' c' input' v).0 ≡ err e)
            × ((bootstrap_first_owner context' c' input' v).1.db ≡ v.db))
unfolding IsFirst
bootstrap_once context c input w r h =
    let first = bootstrap-IsFirst context c input w {r = r} h in
    (
      first,
      λ context' c' input' v same.
          bootstrap-claimed context' c' input' v {t = w.now} (same ∙ first.1),
    )

-- A bootstrap keeps one owner for each workspace, whatever it returns.
pub bootstrap-Single :
    (context : AuditContext) (c : Codec) (input : BootstrapInput)
    → Single (bootstrap_first_owner context c input)
unfolding IsRun
bootstrap-Single context c input w h = elim (bootstrap-IsRun context c input w) [
  | inl (e, failed, same) ↦ rw same h
  | inr (user, new, now, v, here, time, same) ↦ rw same (
      Keeps-transact OneOwner (bootstrap_body context user new now)
        (λ x e k p. (bootstrap_body-ok context user new now x e k).3 p) v (rw here h))
]
