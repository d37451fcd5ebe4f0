-- ===== src/Identity/Invitations/Once.antt =====
-- internal/identity/invitation.go: an invitation is accepted once.
use dynamis_code_apps_templa.Prelude.{
  ℕ, ◌≡◌, sym, subst, ◌∙◌, Bool, true, false, some, List, [], ◌∷◌, Text, ltb, text_eq, text_eq_iff,
  text_eq_refl, text_key, find, find_sound, arith, In, UniqueBy, unique_row, All, All-map, All-find,
  All-updated, inl, inr, Bool-cases, if◌then◌else◌,
}
use dynamis_code_apps_templa.Schema.{InvitationRow, AuditContext, Database}
use dynamis_code_apps_templa.Exec.{ok, World}
use dynamis_code_apps_templa.Identity.Bootstrap.{Codec}
use dynamis_code_apps_templa.Identity.Sessions.{Digest, hash_secret}
use dynamis_code_apps_templa.Identity.Invitations.{is_open}
use dynamis_code_apps_templa.Identity.Invitations.Use.{
  has_secret, is_acceptable, accepted, accept_invitation, create_invited_local_user,
}
use dynamis_code_apps_templa.Identity.Invitations.Registered.{create_invited_local_user-Accepts}
use dynamis_code_apps_templa.Identity.Invitations.Accepted.{Accepts, accept_invitation-Accepts}

find-In :
    (p : InvitationRow → Bool) (rows : List InvitationRow) {x : InvitationRow}
    → find p rows ≡ some x
    → In x rows
find-In p [] h = absurd (ground arith)
find-In p (r ∷ rows) {x} h = elim (Bool-cases (p r)) [
  | inl hit ↦ let e : some r ≡ some x = rw hit at h in inl (cc e)
  | inr miss ↦ inr (find-In p rows {x = x} (rw miss at h))
]

module _ (d : Digest) where
  -- The invitations of a secret have ended.
  Closed : Text → InvitationRow → Type 0
  Closed secret i = text_eq i.secret_hash (hash_secret d secret) ≡ true → is_open i ≡ false

  accepted-Closed :
      (secret : Text) (i : InvitationRow) (now : ℕ)
      → is_open i ≡ true
      → ltb now i.expires_at ≡ true
      → i.secret_hash ≡ hash_secret d secret
      → (x : InvitationRow) → (x.secret_hash ≡ i.secret_hash → x ≡ i)
      → Closed secret (if is_acceptable d i.id now x then accepted d now x else x)
  unfolding Closed
  accepted-Closed secret i now live early own x only =
      elim (Bool-cases (is_acceptable d i.id now x)) [
        | inl hit ↦ rw hit (λ _. ground arith)
        | inr miss ↦ rw miss (λ hashed.
            let same : x ≡ i =
              only ((text_eq_iff x.secret_hash (hash_secret d secret)).0 hashed ∙ sym own) in
            let never : is_acceptable d i.id now i ≡ false =
              subst (λ y. is_acceptable d i.id now y ≡ false) same miss in
            absurd (ground (arith, text_eq_refl i.id)))
      ]

  Accepts-Closed :
      (secret : Text) (before after : Database)
      → UniqueBy (λ i. i.secret_hash) before.invitations
      → Accepts d secret before after
      → All (Closed secret) after.invitations
  unfolding Accepts Closed
  Accepts-Closed secret before after unique (i, now, stored, live, early, rows) =
      let sound : has_secret d secret before i ≡ true =
        find_sound (has_secret d secret before) before.invitations {x = i} stored in
      let own : i.secret_hash ≡ hash_secret d secret =
        (text_eq_iff i.secret_hash (hash_secret d secret)).0 (ground arith) in
      let only =
        unique_row (λ (r : InvitationRow). r.secret_hash) i before.invitations unique
          (find-In (has_secret d secret before) before.invitations {x = i} stored) in
      rw rows (
        All-updated _ (is_acceptable d i.id now) (accepted d now) before.invitations
          (All-map _ _ before.invitations (accepted-Closed secret i now live early own) only))

-- The two ways to accept an invitation: with an account, or with a new one.
pub data Acceptance : Type 0 where
  accepting : (user_id : Text) (context : AuditContext) → Acceptance
  registering : (c : Codec) (password : Text) (context : AuditContext) → Acceptance

-- The state behind an acceptance with a secret, and whether it has succeeded.
unfoldable pub accept_by : Digest → Text → Acceptance → World → World
unfolding accept_invitation create_invited_local_user
accept_by d secret (accepting user_id context) w = (accept_invitation d secret user_id context w).1
accept_by d secret (registering c password context) w =
    (create_invited_local_user d c secret password context w).1

unfoldable pub Succeeds : Digest → Text → Acceptance → World → Type 0
unfolding accept_invitation create_invited_local_user
Succeeds d secret (accepting user_id context) w =
    (t : Text) × ((accept_invitation d secret user_id context w).0 ≡ ok t)
Succeeds d secret (registering c password context) w =
    (t : Text × Text) × ((create_invited_local_user d c secret password context w).0 ≡ ok t)

Succeeds-Accepts :
    (d : Digest) (secret : Text) (a : Acceptance) (w : World)
    → Succeeds d secret a w
    → Accepts d secret w.db (accept_by d secret a w).db
unfolding Succeeds accept_by
Succeeds-Accepts d secret (accepting user_id context) w (t, taken) =
    accept_invitation-Accepts d secret user_id context w {t = t} taken
Succeeds-Accepts d secret (registering c password context) w (t, taken) =
    create_invited_local_user-Accepts d c secret password context w {t = t} taken

-- An invitation is accepted once, in either way: by `AcceptInvitation` with an account, or by
-- `CreateInvitedLocalUser` with a new one. After an acceptance that succeeds, where no two invitations
-- have one secret, none with that secret succeeds again, in neither way, not in any state that has the
-- invitations it left, at whatever time and whatever fails.
pub accepted_once :
    (d : Digest) (secret : Text) (first : Acceptance) (w : World)
    → UniqueBy (λ i. i.secret_hash) w.db.invitations
    → Succeeds d secret first w
    → (v : World) (again : Acceptance)
    → v.db.invitations ≡ (accept_by d secret first w).db.invitations
    → ¬ (Succeeds d secret again v)
unfolding Accepts Closed
accepted_once d secret first w unique taken v again same twice =
    let closed =
      Accepts-Closed d secret w.db (accept_by d secret first w).db unique
        (Succeeds-Accepts d secret first w taken) in
    let (i, now, stored, live, early, rows) = Succeeds-Accepts d secret again v twice in
    let over : Closed d secret i =
      All-find (Closed d secret) (has_secret d secret v.db) v.db.invitations {x = i}
        (rw same closed) stored in
    let sound = find_sound (has_secret d secret v.db) v.db.invitations {x = i} stored in
    let ended = over (ground arith) in ground arith
