-- ===== src/Identity/Tokens/Used.antt =====
-- internal/identity/token.go: what the use of a token rests on and what it grants.
use dynamis_code_apps_templa.Prelude.{
  ℕ, ◌≡◌, refl, ◌==◌, true, false, ◌&&◌, ◌||◌, some, List, [], ◌∷◌, Text, arith, ap, ◌∙◌, find,
  is_nil, text_eq, text_eq_iff, inl, inr, ◌⊎◌, Bool-cases, Option-cases,
}
use dynamis_code_apps_templa.Schema.{Member, TokenRow, AuditContext, Database}
use dynamis_code_apps_templa.Exec.{
  Result-cases, ok, World, End, commit, query, statement, refused, transact,
}
use dynamis_code_apps_templa.Exec.Atomic.{transact_post}
use dynamis_code_apps_templa.Identity.{Principal, is_member}
use dynamis_code_apps_templa.Identity.Policy.{contains, permissions_for_role}
use dynamis_code_apps_templa.Identity.Mfa.{MfaConfig, mfa_required_for_role}
use dynamis_code_apps_templa.Identity.Sessions.{Digest, hash_secret}
use dynamis_code_apps_templa.Identity.Tokens.Scopes.{decode_scopes}
use dynamis_code_apps_templa.Identity.Tokens.{
  effective, TokenUse, used, needs_factor, has_token_secret, is_valid_token, find_token,
  find_holder, touch_token, token_principal, use_token, enforce_policy, authenticate_body,
  token_answer, authenticate_api_token,
}

-- A token may what its scopes and the role both say.
pub effective_lem :
    (q : Text) (allowed scopes : List Text)
    → contains q (effective allowed scopes) ≡ (contains q allowed && contains q scopes)
unfolding effective contains
effective_lem q allowed [] = ground arith
effective_lem q allowed (s ∷ ss) = elim (Bool-cases (text_eq s q)) [
  | inl same ↦
      let e = (text_eq_iff s q).0 same in
      rw (← e) (ground (arith, effective_lem s allowed ss, text_eq_iff s s))
  | inr other ↦ ground (arith, effective_lem q allowed ss)
]

find_token-ok :
    (d : Digest) (secret : Text) (now : ℕ) (w : World)
    → ((find_token d secret now w).1.db ≡ w.db)
      × ((t : TokenRow)
          → (find_token d secret now w).0 ≡ ok t
          → (find (has_token_secret (hash_secret d secret)) w.db.api_tokens ≡ some t)
            × (is_valid_token now t ≡ true))
unfolding find_token query statement
find_token-ok d secret now w = elim (Bool-cases (refused w.faults)) [
  | inl bad ↦ (ground arith, λ t h. absurd (ground arith))
  | inr good ↦
      elim (Option-cases (find (has_token_secret (hash_secret d secret)) w.db.api_tokens)) [
        | inl missing ↦ (ground arith, λ t h. absurd (ground arith))
        | inr (r, found) ↦ elim (Bool-cases (is_valid_token now r)) [
          | inl valid ↦ (ground arith, λ t h. (ground arith, ground arith))
          | inr over ↦ (ground arith, λ t h. absurd (ground arith))
        ]
      ]
]

find_holder-ok :
    (t : TokenRow) (w : World) {m : Member}
    → (find_holder t w).0 ≡ ok m
    → find (is_member t.workspace_id t.user_id) w.db.members ≡ some m
unfolding find_holder query statement
find_holder-ok t w h = elim (Bool-cases (refused w.faults)) [
  | inl bad ↦ absurd (ground arith)
  | inr good ↦ elim (Option-cases (find (is_member t.workspace_id t.user_id) w.db.members)) [
    | inl missing ↦ absurd (ground arith)
    | inr (m, found) ↦ ground arith
  ]
]

-- The rows behind a principal that a token gives.
Rests : Digest → Text → Text → ℕ → Database → Principal → Type 0
Rests d secret needed now db p =
    (t : TokenRow) × (m : Member) × (find (has_token_secret (hash_secret d secret)) db.api_tokens
      ≡ some t)
    × (is_valid_token now t ≡ true)
    × (find (is_member t.workspace_id t.user_id) db.members ≡ some m)
    × (p
        ≡ token_principal t m.role
            (effective (permissions_for_role m.role) (decode_scopes t.scopes)))
    × ((is_nil needed || contains needed p.permissions) ≡ true)

module _ (context : AuditContext) where
  use_token-ok :
      (needed : Text) (now : ℕ) (t : TokenRow) (role : Text) (permissions : List Text) (w : World)
      {e : End TokenUse}
      → (use_token context needed now t role permissions w).0 ≡ ok e
      → (e ≡ commit (used (token_principal t role permissions)))
        × ((is_nil needed || contains needed permissions) ≡ true)
  unfolding use_token
  use_token-ok needed now t role permissions w h =
      elim (Bool-cases (is_nil needed || contains needed permissions)) [
        | inr refused ↦ absurd (ground arith)
        | inl may ↦ elim (Result-cases (touch_token t.id now w).0) [
          | inr (e, failed) ↦ absurd (ground arith)
          | inl (n, done) ↦ elim (Bool-cases (n == 1)) [
            | inr other ↦ absurd (ground arith)
            | inl single ↦ (ground arith, may)
          ]
        ]
      ]

  enforce_policy-ok :
      (t : TokenRow) (now : ℕ) (w : World) {e : End TokenUse}
      → (enforce_policy context t now w).0 ≡ ok e
      → e ≡ commit needs_factor
  unfolding enforce_policy
  enforce_policy-ok t now w h = ground arith

  -- How a transaction of `AuthenticateAPIToken` ends.
  Ends : Digest → Text → Text → ℕ → Database → End TokenUse → Database → Type 0
  Ends d secret needed now before e after =
      (e ≡ commit needs_factor)
      ⊎ ((p : Principal) × (e ≡ commit (used p)) × Rests d secret needed now before p)

  authenticate_body-ok :
      (d : Digest) (config : MfaConfig) (secret needed : Text) (now : ℕ) (w : World)
      (e : End TokenUse)
      → (authenticate_body context d config secret needed now w).0 ≡ ok e
      → Ends d secret needed now w.db e
          (authenticate_body context d config secret needed now w).1.db
  unfolding authenticate_body Ends Rests token_principal
  authenticate_body-ok d config secret needed now w e h =
      let (same, token) = find_token-ok d secret now w in
      let v = (find_token d secret now w).1 in
      elim (Result-cases (find_token d secret now w).0) [
        | inr (f, failed) ↦ absurd (ground arith)
        | inl (t, there) ↦ elim (Result-cases (find_holder t v).0) [
          | inr (f, failed) ↦ absurd (ground arith)
          | inl (m, held) ↦
              let x = (find_holder t v).1 in
              let permissions = effective (permissions_for_role m.role) (decode_scopes t.scopes) in
              elim (Result-cases (mfa_required_for_role config t.user_id m.role x).0) [
                | inr (f, failed) ↦ absurd (ground arith)
                | inl (true, must) ↦ inl (
                    enforce_policy-ok t now (mfa_required_for_role config t.user_id m.role x).1
                      {e = e} (rw (there, held, must) at h))
                | inl (false, free) ↦
                    let (ends, may) =
                      use_token-ok needed now t m.role permissions
                        (mfa_required_for_role config t.user_id m.role x).1 {e = e}
                        (rw (there, held, free) at h) in
                    let (found, valid) = token t there in
                    inr (
                      token_principal t m.role permissions,
                      ends,
                      (t, m, found, valid, rw (← same) (find_holder-ok t v held), refl, may),
                    )
              ]
        ]
      ]

-- What a principal that a token gives rests on, and what it may.
pub record IsUsed (d : Digest) (secret needed : Text) (now : ℕ) (db : Database) (p : Principal)
    : Type 0 where
  pub token : TokenRow
  pub holder : Member
  pub stored : find (has_token_secret (hash_secret d secret)) db.api_tokens ≡ some token
  pub valid : is_valid_token now token ≡ true
  pub member : find (is_member token.workspace_id token.user_id) db.members ≡ some holder
  pub user : p.user_id ≡ token.user_id
  pub workspace : p.workspace_id ≡ token.workspace_id
  pub role : p.role ≡ holder.role
  pub asked : (is_nil needed || contains needed p.permissions) ≡ true
  pub may :
      (q : Text)
      → contains q p.permissions
        ≡ (contains q (permissions_for_role holder.role) && contains q (decode_scopes token.scopes))

Rests-IsUsed :
    (d : Digest) (secret needed : Text) (now : ℕ) (db : Database) (p : Principal)
    → Rests d secret needed now db p
    → IsUsed d secret needed now db p
unfolding Rests token_principal
Rests-IsUsed d secret needed now db p (t, m, stored, valid, member, same, asked) = record {
  token = t;
  holder = m;
  stored = stored;
  valid = valid;
  member = member;
  user = ap (λ (q : Principal). q.user_id) same;
  workspace = ap (λ (q : Principal). q.workspace_id) same;
  role = ap (λ (q : Principal). q.role) same;
  asked = asked;
  may = λ q.
      ap (λ (x : Principal). contains q x.permissions) same
      ∙ effective_lem q (permissions_for_role m.role) (decode_scopes t.scopes);
}

-- Whatever the faults, a principal that a token gives rests on a stored token that has the hash of the
-- secret, is not revoked and not expired at that time, and on a membership of its user; it is the user in
-- that workspace with that role, it may what it asked for, and it may exactly what both the scopes of the
-- token say and the role grants.
pub authenticate_api_token-IsUsed :
    (context : AuditContext) (d : Digest) (config : MfaConfig) (secret needed : Text) (w : World)
    (p : Principal)
    → (authenticate_api_token context d config secret needed w).0 ≡ ok p
    → IsUsed d secret needed w.now w.db p
unfolding authenticate_api_token token_answer Ends
authenticate_api_token-IsUsed context d config secret needed w p h =
    let body = authenticate_body context d config secret needed w.now in
    elim (Result-cases (transact body w).0) [
      | inr (f, failed) ↦ absurd (ground arith)
      | inl (needs_factor, done) ↦ absurd (ground arith)
      | inl (used x, done) ↦
          let same : x ≡ p = ground arith in
          elim (transact_post (Ends context d secret needed w.now) body
            (authenticate_body-ok context d config secret needed w.now) w {a = used x} done) [
              | inr (kept, after, inl never) ↦ absurd (ground arith)
              | inr (kept, after, inr (y, never, rests)) ↦ absurd (ground arith)
              | inl (inl never) ↦ absurd (ground arith)
              | inl (inr (y, ends, rests)) ↦
                  let there : x ≡ y = ground arith in
                  rw (← same, there) (Rests-IsUsed d secret needed w.now w.db y rests)
            ]
    ]
