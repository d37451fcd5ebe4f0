-- ===== src/Sharing/Created.antt =====
-- internal/sharing/service.go: what `Create` does to the board of shares.
use dynamis_code_apps_templa.Prelude.{
  ℕ, ◌+◌, ◌≡◌, true, false, some, [], ◌∷◌, ◌++◌, Text, ascii, arith, ap, text_eq, any, find,
  if◌then◌else◌, inl, inr, Option-cases,
}
use dynamis_code_apps_templa.Prelude.Int.{ℤ}
use dynamis_code_apps_templa.Clock.RoundTrip.{parse_stamp-stamp}
use dynamis_code_apps_templa.Schema.{Item, LinkRow, AuditContext, Database}
use dynamis_code_apps_templa.Exec.{Result-cases, ok, World, End, commit, fresh}
use dynamis_code_apps_templa.Exec.Atomic.{transact_post_at}
use dynamis_code_apps_templa.Identity.{Principal, permit}
use dynamis_code_apps_templa.Identity.Policy.{resources_write}
use dynamis_code_apps_templa.Identity.Authorize.{permit-db, permit-now}
use dynamis_code_apps_templa.Identity.Audit.{audit-db}
use dynamis_code_apps_templa.Items.{is_item}
use dynamis_code_apps_templa.Sharing.{
  Service, Link, clashes, audit_link, require_item, insert_link, normalize_lifetime, new_link,
  link_row, store_link, draw_link, create_body, create_link, create,
}
use dynamis_code_apps_templa.Sharing.Board.{Share, board, joined-append}

pub audit_link-db :
    (event_type action : Text) (actor : Principal) (workspace_id link_id item_id : Text)
    (context : AuditContext) (now : ℕ) (w : World)
    → record (audit_link event_type action actor workspace_id link_id item_id context now w).1.db {
      audits = w.db.audits;
    }
      ≡ w.db
unfolding audit_link
audit_link-db event_type action actor workspace_id link_id item_id context now w = audit-db _ w

require_item-ok :
    (workspace_id item_id : Text) (w : World) {u : Unit {0}}
    → (require_item workspace_id item_id w).0 ≡ ok u
    → ((i : Item) × (find (is_item workspace_id item_id) w.db.items ≡ some i))
      × ((require_item workspace_id item_id w).1.db ≡ w.db)
      × ((require_item workspace_id item_id w).1.now ≡ w.now)
unfolding require_item
require_item-ok workspace_id item_id w h =
    elim (Option-cases (find (is_item workspace_id item_id) w.db.items)) [
      | inl missing ↦ absurd (ground arith)
      | inr (i, found) ↦ ((i, found), ground arith, ground arith)
    ]

insert_link-ok :
    (new : LinkRow) (w : World) {u : Unit {0}}
    → (insert_link new w).0 ≡ ok u
    → (any (clashes new) w.db.links ≡ false)
      × ((insert_link new w).1.db.links ≡ w.db.links ++ new ∷ [])
      × ((insert_link new w).1.db.items ≡ w.db.items)
unfolding insert_link
insert_link-ok new w h = (ground arith, ground arith, ground arith)

module _ (s : Service) (actor : Principal) (workspace_id item_id : Text)
    (context : AuditContext) where
  -- The row of a link is added under a token hash that no other row has.
  IsStored : Link → Database → Database → Type 0
  IsStored link before after =
      (any (clashes (link_row s actor workspace_id item_id context link)) before.links ≡ false)
      × (after.links ≡ before.links ++ link_row s actor workspace_id item_id context link ∷ [])
      × (after.items ≡ before.items)

  store_link-ok :
      (link : Link) (w : World) {e : End Link}
      → (store_link s actor workspace_id item_id context link w).0 ≡ ok e
      → (e ≡ commit link)
        × IsStored link w.db (store_link s actor workspace_id item_id context link w).1.db
  unfolding store_link IsStored
  store_link-ok link w {e} h =
      let row = link_row s actor workspace_id item_id context link in
      elim (Result-cases (insert_link row w).0) [
        | inr (f, failed) ↦ absurd (ground arith)
        | inl (u, wrote) ↦
            let (unique, links, items) = insert_link-ok row w wrote in
            let v = (insert_link row w).1 in
            let kept =
              audit_link-db (ascii "public_share.created") (ascii "public_share.create") actor
                workspace_id link.id item_id context link.created_at v in
            let same_links = ap (λ (d : Database). d.links) kept in
            let same_items = ap (λ (d : Database). d.items) kept in
            (ground arith, (unique, ground arith, ground arith))
      ]

  -- How a transaction of `Create` ends: the item is stored, and a link to it is added that ends a
  -- lifetime after the transaction's time.
  IsCreated : ℕ → ℕ → Database → End Link → Database → Type 0
  IsCreated now lifetime before e after =
      (link_id : Text) × (token : Text) × (i : Item) × (find (is_item workspace_id item_id)
          before.items
        ≡ some i)
      × (e ≡ commit (new_link s actor workspace_id item_id context link_id token now lifetime))
      × IsStored (new_link s actor workspace_id item_id context link_id token now lifetime) before
          after

  moved :
      (time now lifetime : ℕ) (before start : Database) (e : End Link) (after : Database)
      → time ≡ now
      → before ≡ start
      → IsCreated time lifetime before e after
      → IsCreated now lifetime start e after
  moved time now lifetime before start e after clock same h = rw (← clock, ← same) h

  draw_link-ok :
      (lifetime : ℕ) (i : Item) (w : World) {e : End Link}
      → find (is_item workspace_id item_id) w.db.items ≡ some i
      → (draw_link s actor workspace_id item_id context lifetime w).0 ≡ ok e
      → IsCreated w.now lifetime w.db e
          (draw_link s actor workspace_id item_id context lifetime w).1.db
  unfolding draw_link IsCreated
  draw_link-ok lifetime i w {e} found h = elim (Result-cases (fresh w).0) [
    | inr (f, failed) ↦ absurd (ground arith)
    | inl (link_id, drawn) ↦ elim (Result-cases (fresh (fresh w).1).0) [
      | inr (f, failed) ↦ absurd (ground arith)
      | inl (token, drawn') ↦
          let (ended, stored) =
            store_link-ok
              (new_link s actor workspace_id item_id context link_id token w.now lifetime)
              (fresh (fresh w).1).1 {e = e} (ground arith) in
          (link_id, token, i, found, ended, rw (drawn, drawn') stored)
    ]
  ]

  create_body-ok :
      (lifetime now : ℕ) (w : World) (e : End Link)
      → w.now ≡ now
      → (create_body s actor workspace_id item_id context lifetime w).0 ≡ ok e
      → IsCreated now lifetime w.db e
          (create_body s actor workspace_id item_id context lifetime w).1.db
  unfolding create_body
  create_body-ok lifetime now w e time h =
      let v = (permit actor workspace_id resources_write w).1 in
      let here = permit-db actor workspace_id resources_write w in
      let still = permit-now actor workspace_id resources_write w in
      elim (Result-cases (permit actor workspace_id resources_write w).0) [
        | inr (f, failed) ↦ absurd (ground arith)
        | inl (u, may) ↦ elim (Result-cases (require_item workspace_id item_id v).0) [
          | inr (f, failed) ↦ absurd (ground arith)
          | inl (u', there) ↦
              let ((i, found), same, still') = require_item-ok workspace_id item_id v there in
              let x = (require_item workspace_id item_id v).1 in
              let made = draw_link-ok lifetime i x {e = e} (rw same found) (ground arith) in
              rw (may, there)
                (moved x.now now lifetime x.db w.db e _ (ground arith) (ground arith) made)
        ]
      ]

  -- The share that a new link gives.
  pub new_share : Link → Item → Share
  new_share link i = record {
    link_id = link.id;
    workspace_id = workspace_id;
    item_id = item_id;
    until = some link.expires_at;
    live = true;
    shown = record { title = i.title; status = i.status };
  }

  -- The board gains one share, behind the hash of the new token, and keeps all others.
  stored_board :
      (link : Link) (i : Item) (before after : Database) (hash : Text)
      → link.workspace_id ≡ workspace_id
      → link.item_id ≡ item_id
      → find (is_item workspace_id item_id) before.items ≡ some i
      → IsStored link before after
      → board after hash
        ≡ (if text_eq (s.hash link.token) hash then some (new_share link i) else board before hash)
  unfolding IsStored board new_share link_row
  stored_board link i before after hash of_workspace of_item found (unique, links, items) =
      let row = link_row s actor workspace_id item_id context link in
      let added =
        joined-append before.items hash before.links row i unique
          (rw (of_workspace, of_item) found) in
      ground (arith, parse_stamp-stamp link.expires_at)

  create_link-board :
      (lifetime : ℕ) (w : World) (link : Link)
      → (create_link s actor workspace_id item_id context lifetime w).0 ≡ ok link
      → (i : Item) × (find (is_item workspace_id item_id) w.db.items ≡ some i)
        × (link.expires_at ≡ w.now + lifetime)
        × ((hash : Text)
            → board (create_link s actor workspace_id item_id context lifetime w).1.db hash ≡ (
                if text_eq (s.hash link.token) hash
                then some (new_share link i)
                else board w.db hash))
  unfolding create_link IsCreated new_link
  create_link-board lifetime w link h =
      elim (transact_post_at (IsCreated w.now lifetime)
        (create_body s actor workspace_id item_id context lifetime) w
        (λ v e time. create_body-ok lifetime w.now v e time) {a = link} h) [
          | inl (link_id, token, i, found, ended, stored) ↦
              let made : link
                  ≡ new_link s actor workspace_id item_id context link_id token w.now lifetime =
                ground arith in
              (
                i,
                found,
                ap (λ (l : Link). l.expires_at) made,
                λ hash.
                    stored_board link i w.db _ hash (ap (λ (l : Link). l.workspace_id) made)
                      (ap (λ (l : Link). l.item_id) made) found (rw made stored),
              )
          | inr (kept, after, (link_id, token, i, found, never, stored)) ↦ absurd (ground arith)
        ]

-- A link that `Create` returns is for a stored item of the workspace and ends an allowed lifetime
-- after that time; behind the hash of its token the board now has a live share that shows the
-- item until then, and behind every other hash what it had.
pub create-board :
    (s : Service) (actor : Principal) (workspace_id item_id : Text) (lifetime : ℤ)
    (context : AuditContext) (w : World) (link : Link)
    → (create s actor workspace_id item_id lifetime context w).0 ≡ ok link
    → (n : ℕ) × (i : Item) × (normalize_lifetime lifetime ≡ ok n)
      × (find (is_item workspace_id item_id) w.db.items ≡ some i)
      × (link.expires_at ≡ w.now + n)
      × ((hash : Text)
          → board (create s actor workspace_id item_id lifetime context w).1.db hash ≡ (
              if text_eq (s.hash link.token) hash
              then some (new_share s actor workspace_id item_id context link i)
              else board w.db hash))
unfolding create
create-board s actor workspace_id item_id lifetime context w link h =
    elim (Result-cases (normalize_lifetime lifetime)) [
      | inl (n, allowed) ↦
          let (i, found, ends, shares) =
            create_link-board s actor workspace_id item_id context n w link (ground arith) in
          (n, i, allowed, found, ends, λ hash. rw allowed (shares hash))
      | inr (e, refused) ↦ absurd (ground arith)
    ]
