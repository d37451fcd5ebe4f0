-- ===== src/Sharing/Resolved.antt =====
-- internal/sharing/service.go: `Resolve` shows what the board of shares shows.
use mathlib.Core.Option
use dynamis_code_apps_templa.Prelude.{
  ℕ, ◌≡◌, refl, Option, none, some, List, [], ◌∷◌, Text, arith, ltb, is_some, if◌then◌else◌, inl,
  inr, Bool-cases, Option-cases,
}
use dynamis_code_apps_templa.Clock.{parse_stamp}
use dynamis_code_apps_templa.Schema.{Item, LinkRow, AuditContext, Database}
use dynamis_code_apps_templa.Exec.{
  unavailable, Result, Result-cases, ok, err, World, End, commit, query, statement, fresh, begun,
  close, transact, refused, behind,
}
use dynamis_code_apps_templa.Exec.Atomic.{transact_post_at}
use dynamis_code_apps_templa.Identity.{audit}
use dynamis_code_apps_templa.Sharing.{
  Service, PublicItem, Outcome, missing, revoked_link, expired, success, joined, outcome_of,
  record_access, judge, resolve_body, answer, resolve,
}
use dynamis_code_apps_templa.Sharing.Board.{Share, share, show, board}

-- What the answer to an outcome may show.
abbrev shown_by : Outcome → Option PublicItem
shown_by (success i) = some (record { title = i.title; status = i.status })
shown_by missing = none
shown_by revoked_link = none
shown_by expired = none

-- The outcome of a row shows what its share shows.
outcome_of-show :
    (now : ℕ) (row : Option (LinkRow × Item)) (outcome : Outcome)
    → outcome_of now row ≡ ok outcome
    → shown_by outcome ≡ show now (Option.map share row)
unfolding outcome_of show
outcome_of-show now none outcome h = ground arith
outcome_of-show now (some (l, i)) outcome h = elim (Option-cases l.revoked_at) [
  | inr (t, revoked) ↦ ground arith
  | inl live ↦ elim (Option-cases (parse_stamp l.expires_at)) [
    | inl unread ↦ absurd (ground arith)
    | inr (end, read) ↦ ground arith
  ]
]

module _ (s : Service) (token : Text) (context : AuditContext) where
  -- How a transaction of `Resolve` ends: with an outcome that shows what the board shows.
  Shows : ℕ → Database → End Outcome → Database → Type 0
  Shows now before e after =
      (outcome : Outcome) × (e ≡ commit outcome)
      × (shown_by outcome ≡ show now (board before (s.hash token)))

  judge-ok :
      (row : Option (LinkRow × Item)) (w : World) {e : End Outcome}
      → (judge s token context row w).0 ≡ ok e
      → (outcome : Outcome) × (outcome_of w.now row ≡ ok outcome) × (e ≡ commit outcome)
  unfolding judge record_access
  judge-ok row w h = elim (Result-cases (outcome_of w.now row)) [
    | inr (f, failed) ↦ absurd (ground arith)
    | inl (outcome, found) ↦ (outcome, found, ground arith)
  ]

  resolve_body-ok :
      (now : ℕ) (w : World) (e : End Outcome)
      → w.now ≡ now
      → (resolve_body s token context w).0 ≡ ok e
      → Shows now w.db e (resolve_body s token context w).1.db
  unfolding resolve_body Shows board
  resolve_body-ok now w e time h =
      let row = joined w.db.items (s.hash token) w.db.links in
      elim (Bool-cases (refused w.faults)) [
        | inl bad ↦ absurd (ground arith)
        | inr good ↦
            let (outcome, found, ended) =
              judge-ok row (record w { faults = behind w.faults }) {e = e} (ground arith) in
            (outcome, ended, rw (← time) (outcome_of-show w.now row outcome found))
      ]

  answer-ok :
      (outcome : Outcome) (w : World) {p : PublicItem}
      → (answer s token context outcome w).0 ≡ ok p
      → shown_by outcome ≡ some p
  unfolding answer
  answer-ok (success i) w h = ground arith
  answer-ok missing w h = absurd (ground arith)
  answer-ok revoked_link w h = absurd (ground arith)
  answer-ok expired w h = absurd (ground arith)

-- Whatever the faults of the database and of the random source, the item that `Resolve` returns is the
-- one that the board shows behind the hash of the token at that time: there is a share, it is not
-- withdrawn, and its time is not over.
pub resolve-show :
    (s : Service) (token : Text) (context : AuditContext) (w : World) (p : PublicItem)
    → (resolve s token context w).0 ≡ ok p
    → show w.now (board w.db (s.hash token)) ≡ some p
unfolding resolve Shows
resolve-show s token context w p h =
    elim (Result-cases (transact (resolve_body s token context) w).0) [
      | inr (f, failed) ↦ absurd (ground arith)
      | inl (outcome, done) ↦
          elim (transact_post_at (Shows s token context w.now) (resolve_body s token context) w
            (λ v e time. resolve_body-ok s token context w.now v e time) {a = outcome} done) [
              | inl (x, same, shows) ↦
                  let seen =
                    answer-ok s token context outcome (transact (resolve_body s token context) w).1
                      {p = p} (ground arith) in
                  ground arith
              | inr (kept, after, (x, never, shows)) ↦ absurd (ground arith)
            ]
    ]

-- What the caller gets for what the board shows.
abbrev pub reply : Option PublicItem → Result PublicItem
reply none = err unavailable
reply (some p) = ok p

-- The board's row behind a hash has a time that can be read.
unfoldable pub IsReadable : Option Share → Type 0
IsReadable none = Unit {0}
IsReadable (some sh) = (end : ℕ) × (sh.until ≡ some end)

outcome_of-readable :
    (now : ℕ) (row : Option (LinkRow × Item))
    → IsReadable (Option.map share row)
    → (outcome : Outcome) × (outcome_of now row ≡ ok outcome)
unfolding outcome_of IsReadable
outcome_of-readable now none h = (missing, refl)
outcome_of-readable now (some (l, i)) (end, h) = elim (Bool-cases (is_some l.revoked_at)) [
  | inl revoked ↦ (revoked_link, ground arith)
  | inr live ↦ ((if ltb now end then success i else expired), ground arith)
]

answer-reply :
    (s : Service) (token : Text) (context : AuditContext) (outcome : Outcome) (w : World)
    → (answer s token context outcome w).0 ≡ reply (shown_by outcome)
unfolding answer
answer-reply s token context (success i) w = refl
answer-reply s token context missing w = refl
answer-reply s token context revoked_link w = refl
answer-reply s token context expired w = refl

module _ (s : Service) (token : Text) (context : AuditContext) (w : World) (event_id : Text)
    (rest : List (Option Text)) where
  resolve_body-result :
      (outcome : Outcome)
      → w.faults ≡ []
      → w.entropy ≡ some event_id ∷ rest
      → outcome_of w.now (joined w.db.items (s.hash token) w.db.links) ≡ ok outcome
      → (transact (resolve_body s token context) w).0 ≡ ok outcome
  unfolding transact begun close resolve_body judge record_access audit query statement fresh
  resolve_body-result outcome healthy drawn found = ground arith

-- Where the database answers, the random source gives an id for the audit event, and the stored expiry of
-- a link of that token is the text of a time, `Resolve` returns exactly what the board shows behind the hash of the token at that time, and unavailable where it
-- shows nothing: a missing link, a revoked one and one whose time is over get the same error.
pub resolve-reply :
    (s : Service) (token : Text) (context : AuditContext) (w : World) (event_id : Text)
    (rest : List (Option Text))
    → w.faults ≡ []
    → w.entropy ≡ some event_id ∷ rest
    → IsReadable (board w.db (s.hash token))
    → (resolve s token context w).0 ≡ reply (show w.now (board w.db (s.hash token)))
unfolding resolve board
resolve-reply s token context w event_id rest healthy drawn readable =
    let row = joined w.db.items (s.hash token) w.db.links in
    let (outcome, found) = outcome_of-readable w.now row readable in
    let done = resolve_body-result s token context w event_id rest outcome healthy drawn found in
    let shows = outcome_of-show w.now row outcome found in
    let said = answer-reply s token context outcome (transact (resolve_body s token context) w).1 in
    ground arith
