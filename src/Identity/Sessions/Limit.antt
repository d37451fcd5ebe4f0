-- ===== src/Identity/Sessions/Limit.antt =====
-- internal/identity/session.go: no user has more than ten active sessions.
use dynamis_code_apps_templa.Prelude.{
  ℕ, zero, suc, ◌+◌, ◌≤◌, ◌≡◌, refl, Bool, true, ◌&&◌, not, List, [], ◌∷◌, Text, ascii, arith, ap,
  ◌∙◌, length, drop, map, text_eq_iff, any, count, filter, update_where, ltb, inl, inr, Bool-cases,
}
use dynamis_code_apps_templa.Prelude.Counts.{one}
use dynamis_code_apps_templa.Schema.{SessionRow, AuditContext, Database}
use dynamis_code_apps_templa.Exec.{
  behind, Result-cases, ok, World, Exec, query, statement, execute, refused,
}
use dynamis_code_apps_templa.Identity.Policy.{contains}
use dynamis_code_apps_templa.Identity.Members.{is_user}
use dynamis_code_apps_templa.Identity.Audit.{audit-db}
use dynamis_code_apps_templa.Identity.Sessions.{
  is_active, insert_session_sorted, latest_first, session_id, has_id, ended, end_session,
  audit_session, end_each, end_oldest, max_active_sessions_per_user, enforce_session_limit,
}

count-insert_session_sorted :
    (q : SessionRow → Bool) (s : SessionRow) (ss : List SessionRow)
    → count q (insert_session_sorted s ss) ≡ count q ss + one (q s)
unfolding insert_session_sorted
count-insert_session_sorted q s [] = ground arith
count-insert_session_sorted q s (t ∷ ts) = ground (arith, count-insert_session_sorted q s ts)

count-latest_first :
    (q : SessionRow → Bool) (ss : List SessionRow) → count q (latest_first ss) ≡ count q ss
unfolding latest_first
count-latest_first q [] = refl
count-latest_first q (s ∷ ss) =
    ground (arith, count-latest_first q ss, count-insert_session_sorted q s (latest_first ss))

count-both :
    (p q : SessionRow → Bool) (ss : List SessionRow)
    → count q (filter p ss) ≡ count (λ s. p s && q s) ss
count-both p q [] = refl
count-both p q (s ∷ ss) = ground (arith, count-both p q ss)

count-drop :
    (q : SessionRow → Bool) (n : ℕ) (ss : List SessionRow) → count q ss ≤ n + count q (drop n ss)
count-drop q zero ss = omega arith
count-drop q (suc n) [] = omega arith
count-drop q (suc n) (s ∷ ss) = ground (arith, count-drop q n ss)

count-le :
    (p q : SessionRow → Bool)
    → ((s : SessionRow) → p s ≡ true → q s ≡ true)
    → (ss : List SessionRow) → count p ss ≤ count q ss
count-le p q h [] = omega arith
count-le p q h (s ∷ ss) = ground (arith, h s, count-le p q h ss)

-- The rows whose id is not in a list.
abbrev others : List Text → SessionRow → Bool
others ids s = not (contains s.id ids)

others_own : (ss : List SessionRow) → count (others (map session_id ss)) ss ≡ 0
unfolding contains
others_own [] = refl
others_own (s ∷ ss) =
    let fewer =
      count-le (others (map session_id (s ∷ ss))) (others (map session_id ss)) (λ t h. ground arith)
        ss in
    ground (arith, others_own ss, text_eq_iff s.id s.id)

-- The rows after the loop of `enforceSessionLimit`.
end_rows : ℕ → List Text → List SessionRow → List SessionRow
end_rows now [] ss = ss
end_rows now (id ∷ ids) ss = end_rows now ids (update_where (has_id id) (ended now) ss)

module _ (user_id : Text) (now : ℕ) where
  end_one :
      (id : Text) (ids : List Text) (ss : List SessionRow)
      → count
          (λ s. is_active user_id now s && others ids s)
          (update_where (has_id id) (ended now) ss)
        ≡ count (λ s. is_active user_id now s && others (id ∷ ids) s) ss
  unfolding contains
  end_one id ids [] = refl
  end_one id ids (s ∷ ss) =
      ground (arith, end_one id ids ss, text_eq_iff s.id id, text_eq_iff id s.id)

  none_ended :
      (ss : List SessionRow)
      → count (is_active user_id now) ss ≡ count (λ s. is_active user_id now s && others [] s) ss
  unfolding contains
  none_ended [] = refl
  none_ended (s ∷ ss) = ground (arith, none_ended ss)

  count-end_rows :
      (ids : List Text) (ss : List SessionRow)
      → count (is_active user_id now) (end_rows now ids ss)
        ≡ count (λ s. is_active user_id now s && others ids s) ss
  unfolding end_rows contains
  count-end_rows [] ss = none_ended ss
  count-end_rows (id ∷ ids) ss =
      count-end_rows ids (update_where (has_id id) (ended now) ss) ∙ end_one id ids ss

  -- What `enforceSessionLimit` leaves of the active sessions.
  end_rows_limit :
      (ss : List SessionRow)
      → count (is_active user_id now) (
          end_rows now
            (map session_id (drop 9 (latest_first (filter (is_active user_id now) ss))))
            ss)
        ≤ 9
  end_rows_limit ss =
      let active = filter (is_active user_id now) ss in
      let oldest = drop 9 (latest_first active) in
      let ids = map session_id oldest in
      let counted = count-end_rows ids ss in
      let filtered = count-both (is_active user_id now) (others ids) ss in
      let sorted = count-latest_first (others ids) active in
      let most = count-drop (others ids) 9 (latest_first active) in
      let own = others_own oldest in omega (arith, counted, filtered, sorted, most, own)

length-insert_session_sorted :
    (s : SessionRow) (ss : List SessionRow) → length (insert_session_sorted s ss) ≡ suc (length ss)
unfolding insert_session_sorted
length-insert_session_sorted s [] = refl
length-insert_session_sorted s (t ∷ ts) = ground (arith, length-insert_session_sorted s ts)

length-latest_first : (ss : List SessionRow) → length (latest_first ss) ≡ length ss
unfolding latest_first
length-latest_first [] = refl
length-latest_first (s ∷ ss) =
    ground (arith, length-latest_first ss, length-insert_session_sorted s (latest_first ss))

length-filter : (p : SessionRow → Bool) (ss : List SessionRow) → length (filter p ss) ≡ count p ss
length-filter p [] = refl
length-filter p (s ∷ ss) = ground (arith, length-filter p ss)

pub audit_session-sessions :
    (event_type action user_id auth_method id : Text) (context : AuditContext) (now : ℕ) (w : World)
    → (audit_session event_type action user_id auth_method id context now w).1.db.sessions
      ≡ w.db.sessions
unfolding audit_session
audit_session-sessions event_type action user_id auth_method id context now w =
    ap (λ (d : Database). d.sessions) (audit-db _ w)

end_session-ok :
    (now : ℕ) (id : Text) (w : World) {n : ℕ}
    → (end_session now id w).0 ≡ ok n
    → (end_session now id w).1.db.sessions ≡ update_where (has_id id) (ended now) w.db.sessions
unfolding end_session execute statement
end_session-ok now id w h = ground arith

module _ (user_id : Text) (context : AuditContext) (now : ℕ) where
  abbrev told : Text → Exec (Unit {0})
  told id =
      audit_session (ascii "session.limit_revoked") (ascii "session.revoke") user_id
        (ascii "system") id context now

  end_each-ok :
      (ids : List Text) (w : World) {u : Unit {0}}
      → (end_each user_id context now ids w).0 ≡ ok u
      → (end_each user_id context now ids w).1.db.sessions ≡ end_rows now ids w.db.sessions
  unfolding end_each end_rows
  end_each-ok [] w h = refl
  end_each-ok (id ∷ ids) w {u} h = elim (Result-cases (end_session now id w).0) [
    | inr (e, failed) ↦ absurd (ground arith)
    | inl (n, done) ↦
        let v = (end_session now id w).1 in
        elim (Result-cases (told id v).0) [
          | inr (e, failed) ↦ absurd (ground arith)
          | inl (u', said) ↦
              let rows = end_session-ok now id w done in
              let same =
                audit_session-sessions (ascii "session.limit_revoked") (ascii "session.revoke")
                  user_id (ascii "system") id context now v in
              let rest = end_each-ok ids (told id v).1 {u = u} (ground arith) in
              rw (done, said) (rest ∙ ap (end_rows now ids) (same ∙ rows))
        ]
  ]

  end_oldest-ok :
      (w : World) {u : Unit {0}}
      → (end_oldest user_id context now
          (latest_first (filter (is_active user_id now) w.db.sessions))
          w).0
        ≡ ok u
      → count
          (is_active user_id now)
          (end_oldest user_id context now
            (latest_first (filter (is_active user_id now) w.db.sessions))
            w).1.db.sessions
        ≤ 9
  unfolding end_oldest
  end_oldest-ok w {u} h =
      let ss = w.db.sessions in
      let active = latest_first (filter (is_active user_id now) ss) in
      let total = length-latest_first (filter (is_active user_id now) ss) in
      let all = length-filter (is_active user_id now) ss in
      elim (Bool-cases (ltb (length active) max_active_sessions_per_user)) [
        | inl few ↦ ground arith
        | inr many ↦
            let rows = end_each-ok (map session_id (drop 9 active)) w {u = u} (ground arith) in
            let most = end_rows_limit user_id now ss in rw (many, rows) most
      ]

  pub enforce_session_limit-ok :
      (w : World) {u : Unit {0}}
      → (enforce_session_limit user_id context now w).0 ≡ ok u
      → count (is_active user_id now) (enforce_session_limit user_id context now w).1.db.sessions
        ≤ 9
  unfolding enforce_session_limit query statement
  enforce_session_limit-ok w {u} h = elim (Bool-cases (refused w.faults)) [
    | inl bad ↦ absurd (ground arith)
    | inr good ↦ elim (Bool-cases (any (is_user user_id) w.db.users)) [
      | inr missing ↦ absurd (ground arith)
      | inl there ↦ elim (Bool-cases (refused (behind w.faults))) [
        | inl bad ↦ absurd (ground arith)
        | inr good' ↦
            let v = record w { faults = behind (behind w.faults) } in
            rw (good, there, good') (end_oldest-ok v {u = u} (rw (good, there, good') at h))
      ]
    ]
  ]
