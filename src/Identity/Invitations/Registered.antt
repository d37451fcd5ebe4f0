-- ===== src/Identity/Invitations/Registered.antt =====
-- internal/identity/invitation.go: what CreateInvitedLocalUser does to the table of invitations.
use dynamis_code_apps_templa.Prelude.{
  ℕ, ◌≡◌, refl, Bool, sym, ap, subst, ◌∙◌, true, not, any, Option, none, some, Text, length, ltb,
  ◌||◌, text_eq, update_where, arith, ◌⊎◌, inl, inr, Bool-cases,
}
use dynamis_code_apps_templa.Schema.{InvitationRow, UserRow, AuditContext, Database}
use dynamis_code_apps_templa.Exec.{
  invalid_invitation, Result, ok, World, Exec, continue-ok, continue, pure, guard, ◌>>=◌, ◌>>◌,
  query, statement, fresh, End, commit, transact,
}
use dynamis_code_apps_templa.Exec.Atomic.{transact_post}
use dynamis_code_apps_templa.Identity.{masked}
use dynamis_code_apps_templa.Identity.Bootstrap.{Codec, hash_password, insert_user}
use dynamis_code_apps_templa.Identity.Bootstrap.Once.{hash_password-calm}
use dynamis_code_apps_templa.Identity.Sessions.{Digest}
use dynamis_code_apps_templa.Identity.Invitations.Settled.{masked-world}
use dynamis_code_apps_templa.Identity.Invitations.Use.{
  find_invitation, is_acceptable, accepted, accept_loaded, join_new, join_found, answer,
  create_invited_local_user,
}
use dynamis_code_apps_templa.Identity.Invitations.Loaded.{find_invitation-ok, accept_loaded-ok}
use dynamis_code_apps_templa.Identity.Invitations.Accepted.{Accepts, answer-world}

insert_user-same :
    (u : UserRow) (w : World)
    → (masked invalid_invitation (insert_user u w)).1.db.invitations ≡ w.db.invitations
unfolding insert_user statement
insert_user-same u w =
    ap (λ (v : World). v.db.invitations) (masked-world invalid_invitation (insert_user u w))
    ∙ ground arith

query-calm :
    {A : Type 0} (read : Database → A) (w : World)
    → ((query read w).1.db ≡ w.db) × ((query read w).1.now ≡ w.now)
unfolding query statement
query-calm read w = (ground arith, ground arith)

fresh-calm : (w : World) → ((fresh w).1.db ≡ w.db) × ((fresh w).1.now ≡ w.now)
unfolding fresh
fresh-calm w = (refl, refl)

module _ (d : Digest) (password_hash : Text) (context : AuditContext) where
  join_new-ok :
      (i : InvitationRow) (user_id : Text) (now : ℕ) (w : World) {e : End (Option (Text × Text))}
      → (join_new d password_hash context i user_id now w).0 ≡ ok e
      → (t : Text × Text) × (e ≡ commit (some t))
        × ((join_new d password_hash context i user_id now w).1.db.invitations
            ≡ update_where (is_acceptable d i.id now) (accepted d now) w.db.invitations)
  unfolding join_new
  join_new-ok i user_id now w {e} h =
      let user : UserRow = record {
        id = user_id;
        email = i.email;
        password_hash = some password_hash;
        email_verified_at = some now;
        created_at = now;
      } in
      let last : Text → Exec (End (Option (Text × Text))) =
        λ t. pure (commit (some (user_id, t))) in
      let rest : Unit {0} → Exec (End (Option (Text × Text))) =
        λ u. accept_loaded d i user_id context now >>= last in
      let inserted = masked invalid_invitation (insert_user user w) in
      let (u, _, run) = continue-ok inserted.0 rest inserted.1 {b = e} h in
      let h' = ap (λ (r : Result (End (Option (Text × Text))) × World). r.0) (sym run) ∙ h in
      let loaded = accept_loaded d i user_id context now inserted.1 in
      let (t, joined, run') = continue-ok loaded.0 last loaded.1 {b = e} h' in
      let ends = ap (λ (r : Result (End (Option (Text × Text))) × World). r.0) (sym run') ∙ h' in
      (
        (user_id, t),
        ground arith,
        ap (λ (r : Result (End (Option (Text × Text))) × World). r.1.db.invitations) (run ∙ run')
            ∙ accept_loaded-ok d i user_id context now inserted.1 {t = t} joined
            ∙ ap (update_where (is_acceptable d i.id now) (accepted d now))
                (insert_user-same user w),
      )

  join_found-ok :
      (found : Option InvitationRow) (w : World) (e : End (Option (Text × Text)))
      → (join_found d password_hash context found w).0 ≡ ok e
      → (e ≡ commit none)
        ⊎ ((t : Text × Text) × (i : InvitationRow) × (e ≡ commit (some t))
            × (found ≡ some i)
            × ((join_found d password_hash context found w).1.db.invitations
                ≡ update_where (is_acceptable d i.id w.now) (accepted d w.now) w.db.invitations))
  unfolding join_found
  join_found-ok none w e h = inl (ground arith)
  join_found-ok (some i) w e h =
      let read : Database → Bool = λ db. any (λ (u : UserRow). text_eq u.email i.email) db.users in
      let joins : Text → Exec (End (Option (Text × Text))) =
        λ user_id x. join_new d password_hash context i user_id x.now x in
      let draws : Exec (End (Option (Text × Text))) = fresh >>= joins in
      let checks : Bool → Exec (End (Option (Text × Text))) =
        λ there. guard (not there) invalid_invitation >> draws in
      let of : Result (End (Option (Text × Text))) × World → Result (End (Option (Text × Text))) =
        λ r. r.0 in
      let v = (query read w).1 in
      let y = (fresh v).1 in
      let (there, asked, run) = continue-ok (query read w).0 checks v {b = e} h in
      let h' : (checks there v).0 ≡ ok e = ap of (sym run) ∙ h in
      elim (Bool-cases there) [
        | inl taken ↦
            let never : (checks true v).0 ≡ ok e = subst (λ b. (checks b v).0 ≡ ok e) taken h' in
            absurd (ground arith)
        | inr free ↦
            let run' : checks there v ≡ draws v = ap (λ b. checks b v) free in
            let h'' : (draws v).0 ≡ ok e = ap of (sym run') ∙ h' in
            let (user_id, drawn, run'') = continue-ok (fresh v).0 joins y {b = e} h'' in
            let (t, ends, rows) = join_new-ok i user_id y.now y {e = e} (ap of (sym run'') ∙ h'') in
            let (db, time) = query-calm read w in
            let (db', time') = fresh-calm v in
            inr (
              t,
              i,
              ends,
              refl,
              ap (λ (r : Result (End (Option (Text × Text))) × World). r.1.db.invitations)
                    (run ∙ run' ∙ run'')
                  ∙ rows
                  ∙ ap (λ n. update_where (is_acceptable d i.id n) (accepted d n) y.db.invitations)
                      (time' ∙ time)
                  ∙ ap
                      (λ (x : Database).
                        update_where (is_acceptable d i.id w.now) (accepted d w.now) x.invitations)
                      (db' ∙ db),
            )
      ]

module _ (d : Digest) where
  abbrev Registers : Text → Database → End (Option (Text × Text)) → Database → Type 0
  Registers secret before e after =
      (e ≡ commit none)
      ⊎ ((t : Text × Text) × (e ≡ commit (some t)) × Accepts d secret before after)

  register_body-ok :
      (secret password_hash : Text) (context : AuditContext) (w : World)
      (e : End (Option (Text × Text)))
      → ((find_invitation d secret >>= join_found d password_hash context) w).0 ≡ ok e
      → Registers secret w.db e
          ((find_invitation d secret >>= join_found d password_hash context) w).1.db
  unfolding Accepts
  register_body-ok secret password_hash context w e h =
      let v = (find_invitation d secret w).1 in
      let (found, got, run) =
        continue-ok (find_invitation d secret w).0 (join_found d password_hash context) v {b = e}
          h in
      let h' = ap (λ (r : Result (End (Option (Text × Text))) × World). r.0) (sym run) ∙ h in
      elim (join_found-ok d password_hash context found v e h') [
        | inl over ↦ inl over
        | inr (t, i, ends, some_found, rows) ↦
            let ((stored, live, early), same, time) =
              find_invitation-ok d secret w {i = i} (got ∙ ap ok some_found) in
            inr (
              t,
              ends,
              (
                i,
                v.now,
                stored,
                live,
                subst (λ n. ltb n i.expires_at ≡ true) (sym time) early,
                ap (λ (r : Result (End (Option (Text × Text))) × World). r.1.db.invitations) run
                    ∙ rows
                    ∙ ap
                        (λ (x : Database).
                          update_where (is_acceptable d i.id v.now) (accepted d v.now)
                            x.invitations)
                        same,
              ),
            )
      ]

  registered-Accepts :
      (secret password_hash : Text) (context : AuditContext) (w : World) {t : Text × Text}
      → ((transact (find_invitation d secret >>= join_found d password_hash context) >>= answer d)
          w).0
        ≡ ok t
      → Accepts d secret w.db
          ((transact (find_invitation d secret >>= join_found d password_hash context) >>= answer d)
            w).1.db
  registered-Accepts secret password_hash context w {t} h =
      let body = find_invitation d secret >>= join_found d password_hash context in
      let v = (transact body w).1 in
      let (found, done, run) = continue-ok (transact body w).0 (answer d) v {b = t} h in
      let same : (continue (transact body w).0 (answer d) v).1 ≡ v =
        ap (λ (r : Result (Text × Text) × World). r.1) run ∙ answer-world d found v in
      let given : (answer d found v).0 ≡ ok t =
        ap (λ (r : Result (Text × Text) × World). r.0) (sym run) ∙ h in
      elim (transact_post (Registers secret) body (register_body-ok secret password_hash context) w
        {a = found} done) [
          | inl (inl over) ↦
              let missing : found ≡ none = ground arith in
              let never : (answer d {A = Text × Text} none v).0 ≡ ok t =
                subst (λ o. (answer d o v).0 ≡ ok t) missing given in
              absurd (ground arith)
          | inl (inr (x, ends, taken)) ↦
              subst (Accepts d secret w.db) (ap (λ (u : World). u.db) (sym same)) taken
          | inr (kept, after, inl over) ↦ absurd (ground arith)
          | inr (kept, after, inr (x, ends, taken)) ↦ absurd (ground arith)
        ]

  -- What a registration that succeeds does to the table.
  pub create_invited_local_user-Accepts :
      (c : Codec) (secret password : Text) (context : AuditContext) (w : World) {t : Text × Text}
      → (create_invited_local_user d c secret password context w).0 ≡ ok t
      → Accepts d secret w.db (create_invited_local_user d c secret password context w).1.db
  unfolding create_invited_local_user
  create_invited_local_user-Accepts c secret password context w {t} h =
      let short = ltb (length password) 12 || ltb 1024 (length password) in
      let rest : Text → Exec (Text × Text) = λ password_hash.
        transact (find_invitation d secret >>= join_found d password_hash context) >>= answer d in
      let hashes : Exec Text = λ v. masked invalid_invitation (hash_password c password v) in
      elim (Bool-cases short) [
        | inl bad ↦ absurd (let k = rw bad at h in ground arith)
        | inr good ↦
            let h' : ((hashes >>= rest) w).0 ≡ ok t = rw good at h in
            let v = (hashes w).1 in
            let (password_hash, hashed, run) = continue-ok (hashes w).0 rest v {b = t} h' in
            let h'' = ap (λ (r : Result (Text × Text) × World). r.0) (sym run) ∙ h' in
            let (calm, _) = hash_password-calm c password w in
            let same : v.db ≡ w.db =
              ap (λ (x : World). x.db)
                (masked-world invalid_invitation (hash_password c password w))
              ∙ calm in
            let taken = registered-Accepts secret password_hash context v {t = t} h'' in
            rw good (
              subst (Accepts d secret w.db)
                (ap (λ (r : Result (Text × Text) × World). r.1.db) (sym run))
                (subst (λ x. Accepts d secret x (rest password_hash v).1.db) same taken))
      ]
