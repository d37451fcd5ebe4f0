-- ===== src/Identity/Invitations/Accepted.antt =====
-- internal/identity/invitation.go: what an acceptance does to the table of invitations.
use dynamis_code_apps_templa.Prelude.{
  ℕ, ◌≡◌, refl, sym, ap, subst, ◌∙◌, true, Option, none, some, Text, ltb, text_eq, text_key, find,
  update_where, arith, ◌⊎◌, inl, inr, Bool-cases, Option-cases,
}
use dynamis_code_apps_templa.Schema.{InvitationRow, AuditContext, Database}
use dynamis_code_apps_templa.Exec.{
  invalid_invitation, Result, ok, World, Exec, continue-ok, continue, pure, ◌>>=◌, query, statement,
  End, commit, transact,
}
use dynamis_code_apps_templa.Exec.Atomic.{transact_post}
use dynamis_code_apps_templa.Identity.{masked}
use dynamis_code_apps_templa.Identity.Members.{is_user}
use dynamis_code_apps_templa.Identity.Sessions.{Digest}
use dynamis_code_apps_templa.Identity.Invitations.{is_open}
use dynamis_code_apps_templa.Identity.Invitations.Use.{
  has_secret, find_invitation, is_acceptable, accepted, accept_loaded, email_of, accept_found,
  accept_body, accept_invitation, answer,
}
use dynamis_code_apps_templa.Identity.Invitations.Loaded.{
  masked-ok, find_invitation-ok, accept_loaded-ok,
}

module _ (d : Digest) where
  -- What an acceptance does to the table: the row of the secret is accepted.
  unfoldable pub Accepts : Text → Database → Database → Type 0
  Accepts secret before after =
      (i : InvitationRow) × (now : ℕ) × (find (has_secret d secret before) before.invitations
        ≡ some i)
      × (is_open i ≡ true)
      × (ltb now i.expires_at ≡ true)
      × (after.invitations
          ≡ update_where (is_acceptable d i.id now) (accepted d now) before.invitations)

  accept_found-ok :
      (user_id email : Text) (context : AuditContext) (found : Option InvitationRow) (w : World)
      (e : End (Option Text))
      → (accept_found d user_id email context found w).0 ≡ ok e
      → (e ≡ commit none)
        ⊎ ((t : Text) × (i : InvitationRow) × (e ≡ commit (some t))
            × (found ≡ some i)
            × ((accept_found d user_id email context found w).1.db.invitations
                ≡ update_where (is_acceptable d i.id w.now) (accepted d w.now) w.db.invitations))
  unfolding accept_found
  accept_found-ok user_id email context none w e h = inl (ground arith)
  accept_found-ok user_id email context (some i) w e h =
      let last : Text → Exec (End (Option Text)) = λ t. pure (commit (some t)) in
      let loaded = accept_loaded d i user_id context w.now w in
      elim (Bool-cases (text_eq i.email email)) [
        | inr other ↦ absurd (let k = rw other at h in ground arith)
        | inl invited ↦
            let k : (continue loaded.0 last loaded.1).0 ≡ ok e = rw invited at h in
            let (t, joined, run) = continue-ok loaded.0 last loaded.1 {b = e} k in
            inr (
              t,
              i,
              let ends = ap (λ (r : Result (End (Option Text)) × World). r.0) (sym run) ∙ k in
                  ground arith,
              refl,
              rw invited (
                  ap (λ (r : Result (End (Option Text)) × World). r.1.db.invitations) run
                  ∙ accept_loaded-ok d i user_id context w.now w {t = t} joined),
            )
      ]

  pub email_of-db : (user_id : Text) (w : World) → (email_of d user_id w).1.db ≡ w.db
  unfolding email_of query statement
  email_of-db user_id w = elim (Option-cases (find (is_user user_id) w.db.users)) [
    | inl missing ↦ ground arith
    | inr (account, found) ↦ ground arith
  ]

  abbrev Ends : Text → Database → End (Option Text) → Database → Type 0
  Ends secret before e after =
      (e ≡ commit none) ⊎ ((t : Text) × (e ≡ commit (some t)) × Accepts secret before after)

  pub answer-world : {A : Type 0} (found : Option A) (w : World) → (answer d found w).1 ≡ w
  answer-world none w = refl
  answer-world (some t) w = refl

  accept_body-ok :
      (secret user_id : Text) (context : AuditContext) (w : World) (e : End (Option Text))
      → (accept_body d secret user_id context w).0 ≡ ok e
      → (e ≡ commit none)
        ⊎ ((t : Text) × (e ≡ commit (some t))
            × Accepts secret w.db (accept_body d secret user_id context w).1.db)
  unfolding accept_body Accepts
  accept_body-ok secret user_id context w e h =
      let find_masked : Exec (Option InvitationRow) =
        λ v. masked invalid_invitation (find_invitation d secret v) in
      let second : Text → Exec (End (Option Text)) =
        λ email. find_masked >>= accept_found d user_id email context in
      let v = (email_of d user_id w).1 in
      let (email, _, run) = continue-ok (email_of d user_id w).0 second v {b = e} h in
      let h' = ap (λ (r : Result (End (Option Text)) × World). r.0) (sym run) ∙ h in
      let (found, got, run') =
        continue-ok (find_masked v).0 (accept_found d user_id email context) (find_masked v).1
          {b = e} h' in
      let h'' = ap (λ (r : Result (End (Option Text)) × World). r.0) (sym run') ∙ h' in
      let whole = run ∙ run' in
      elim (accept_found-ok user_id email context found (find_masked v).1 e h'') [
        | inl over ↦ inl over
        | inr (t, i, ends, some_found, rows) ↦
            let (got', left) =
              masked-ok invalid_invitation (find_invitation d secret v) {a = found} got in
            let ((stored, live, early), same, time) =
              find_invitation-ok d secret v {i = i} (got' ∙ ap ok some_found) in
            let db : (find_masked v).1.db ≡ w.db =
              ap (λ (x : World). x.db) left ∙ same ∙ email_of-db user_id w in
            let before : v.db ≡ w.db = email_of-db user_id w in
            let now = (find_masked v).1.now in
            inr (
              t,
              ends,
              (
                i,
                now,
                subst (λ (x : Database). find (has_secret d secret x) x.invitations ≡ some i) before
                    stored,
                live,
                subst (λ t. ltb t i.expires_at ≡ true) (sym (ap (λ (x : World). x.now) left ∙ time))
                    early,
                ap (λ (r : Result (End (Option Text)) × World). r.1.db.invitations) whole
                    ∙ rows
                    ∙ ap
                        (λ (x : Database).
                          update_where (is_acceptable d i.id now) (accepted d now) x.invitations)
                        db,
              ),
            )
      ]

  -- What an acceptance that succeeds does to the table.
  pub accept_invitation-Accepts :
      (secret user_id : Text) (context : AuditContext) (w : World) {t : Text}
      → (accept_invitation d secret user_id context w).0 ≡ ok t
      → Accepts secret w.db (accept_invitation d secret user_id context w).1.db
  unfolding accept_invitation
  accept_invitation-Accepts secret user_id context w {t} h =
      let body = accept_body d secret user_id context in
      let (found, done, run) =
        continue-ok (transact body w).0 (answer d) (transact body w).1 {b = t} h in
      let v = (transact body w).1 in
      let same : (continue (transact body w).0 (answer d) v).1 ≡ v =
        ap (λ (r : Result Text × World). r.1) run ∙ answer-world found v in
      let given : (answer d found v).0 ≡ ok t =
        ap (λ (r : Result Text × World). r.0) (sym run) ∙ h in
      elim (transact_post (Ends secret) body (accept_body-ok secret user_id context) w {a = found}
        done) [
          | inl (inl over) ↦
              let missing : found ≡ none = ground arith in
              let never : (answer d {A = Text} none v).0 ≡ ok t =
                subst (λ o. (answer d o v).0 ≡ ok t) missing given in
              absurd (ground arith)
          | inl (inr (x, ends, taken)) ↦
              subst (Accepts secret w.db) (ap (λ (u : World). u.db) (sym same)) taken
          | inr (kept, after, inl over) ↦ absurd (ground arith)
          | inr (kept, after, inr (x, ends, taken)) ↦ absurd (ground arith)
        ]
