-- ===== src/Sharing/Revoked.antt =====
-- internal/sharing/service.go: what `Revoke` does to the board of shares.
use mathlib.Core.Option
use dynamis_code_apps_templa.Prelude.{
  ℕ, ◌≡◌, true, ◌==◌, Text, ascii, arith, ap, count, update_where, inl, inr, Bool-cases,
}
use dynamis_code_apps_templa.Schema.{AuditContext, Database}
use dynamis_code_apps_templa.Exec.{Result-cases, ok, World, End, commit, execute, statement}
use dynamis_code_apps_templa.Exec.Atomic.{transact_post}
use dynamis_code_apps_templa.Identity.{Principal, permit}
use dynamis_code_apps_templa.Identity.Policy.{resources_write}
use dynamis_code_apps_templa.Identity.Authorize.{permit-db}
use dynamis_code_apps_templa.Sharing.{
  is_revocable, revoked, revoke_row, after_revoke, revoke_body, revoke,
}
use dynamis_code_apps_templa.Sharing.Board.{withdraw, board, joined-update_where}
use dynamis_code_apps_templa.Sharing.Created.{audit_link-db}

revoke_row-ok :
    (workspace_id item_id link_id : Text) (now : ℕ) (w : World) {n : ℕ}
    → (revoke_row workspace_id item_id link_id now w).0 ≡ ok n
    → (n ≡ count (is_revocable workspace_id item_id link_id) w.db.links)
      × ((revoke_row workspace_id item_id link_id now w).1.db.links
          ≡ update_where (is_revocable workspace_id item_id link_id) (revoked now) w.db.links)
      × ((revoke_row workspace_id item_id link_id now w).1.db.items ≡ w.db.items)
unfolding revoke_row execute statement
revoke_row-ok workspace_id item_id link_id now w h = (ground arith, ground arith, ground arith)

module _ (actor : Principal) (workspace_id item_id link_id : Text) (context : AuditContext) where
  after_revoke-ok :
      (now changed : ℕ) (w : World) {e : End (Unit {0})}
      → (after_revoke actor workspace_id item_id link_id context now changed w).0 ≡ ok e
      → (e ≡ commit tt)
        × ((changed == 1) ≡ true)
        × ((after_revoke actor workspace_id item_id link_id context now changed w).1.db.links
            ≡ w.db.links)
        × ((after_revoke actor workspace_id item_id link_id context now changed w).1.db.items
            ≡ w.db.items)
  unfolding after_revoke
  after_revoke-ok now changed w h = elim (Bool-cases (changed == 1)) [
    | inr other ↦ absurd (ground arith)
    | inl one ↦
        let kept =
          audit_link-db (ascii "public_share.revoked") (ascii "public_share.revoke") actor
            workspace_id link_id item_id context now w in
        let links = ap (λ (d : Database). d.links) kept in
        let items = ap (λ (d : Database). d.items) kept in
        (ground arith, one, ground arith, ground arith)
  ]

  IsRevoked : Database → End (Unit {0}) → Database → Type 0
  IsRevoked before e after =
      (now : ℕ) × (e ≡ commit tt)
      × ((count (is_revocable workspace_id item_id link_id) before.links == 1) ≡ true)
      × (after.links
          ≡ update_where (is_revocable workspace_id item_id link_id) (revoked now) before.links)
      × (after.items ≡ before.items)

  revoke_body-ok :
      (w : World) (e : End (Unit {0}))
      → (revoke_body actor workspace_id item_id link_id context w).0 ≡ ok e
      → IsRevoked w.db e (revoke_body actor workspace_id item_id link_id context w).1.db
  unfolding revoke_body IsRevoked
  revoke_body-ok w e h =
      let v = (permit actor workspace_id resources_write w).1 in
      let here = permit-db actor workspace_id resources_write w in
      elim (Result-cases (permit actor workspace_id resources_write w).0) [
        | inr (f, failed) ↦ absurd (ground arith)
        | inl (u, may) ↦ elim (Result-cases (revoke_row workspace_id item_id link_id v.now v).0) [
          | inr (f, failed) ↦ absurd (ground arith)
          | inl (n, wrote) ↦
              let (counted, links, items) =
                revoke_row-ok workspace_id item_id link_id v.now v wrote in
              let (ended, one, links', items') =
                after_revoke-ok v.now n (revoke_row workspace_id item_id link_id v.now v).1 {e = e}
                  (ground arith) in
              (v.now, ended, ground arith, ground arith, ground arith)
        ]
      ]

  board-revoked :
      (before after : Database) (now : ℕ) (hash : Text)
      → after.links
        ≡ update_where (is_revocable workspace_id item_id link_id) (revoked now) before.links
      → after.items ≡ before.items
      → board after hash ≡ Option.map (withdraw workspace_id item_id link_id) (board before hash)
  unfolding board
  board-revoked before after now hash links items =
      rw (links, items)
        (joined-update_where before.items hash workspace_id item_id link_id now before.links)

-- A revocation that succeeds has found exactly one link of that id, item and workspace that was not
-- revoked, and withdraws its share: behind every token the board then has what it had, but the share of
-- that link no longer live.
pub revoke-board :
    (actor : Principal) (workspace_id item_id link_id : Text) (context : AuditContext) (w : World)
    → (revoke actor workspace_id item_id link_id context w).0 ≡ ok tt
    → (count (is_revocable workspace_id item_id link_id) w.db.links ≡ 1)
      × ((hash : Text)
          → board (revoke actor workspace_id item_id link_id context w).1.db hash
            ≡ Option.map (withdraw workspace_id item_id link_id) (board w.db hash))
unfolding revoke IsRevoked
revoke-board actor workspace_id item_id link_id context w h =
    elim (transact_post (IsRevoked actor workspace_id item_id link_id context)
      (revoke_body actor workspace_id item_id link_id context)
      (revoke_body-ok actor workspace_id item_id link_id context) w {a = tt} h) [
        | inl (now, _, one, links, items) ↦ (
          ground arith,
          λ hash.
              board-revoked actor workspace_id item_id link_id context w.db _ now hash links items,
        )
        | inr (kept, after, (now, never, _, _, _)) ↦ absurd (ground arith)
      ]
