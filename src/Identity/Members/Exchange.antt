-- ===== src/Identity/Members/Exchange.antt =====
-- internal/identity/service.go: an exchange of roles between the owner and another member.
use dynamis_code_apps_templa.Prelude.{
  ◌≤◌, ◌≡◌, refl, true, false, ◌&&◌, some, List, [], Text, arith, ◌∙◌, find_sound, count, find,
  update_where, text_eq, text_eq_iff, inl, inr, Bool-cases,
}
use dynamis_code_apps_templa.Prelude.Counts.{
  count-update_where, count-update_where-same, count-find, find-update_where,
}
use dynamis_code_apps_templa.Schema.{Member, Database}
use dynamis_code_apps_templa.Identity.{is_member}
use dynamis_code_apps_templa.Identity.Policy.{owner}
use dynamis_code_apps_templa.Identity.Members.{with_role}
use dynamis_code_apps_templa.Identity.Members.Owners.{OneOwner, is_owner, key_kept}

other_key :
    (workspace_id user_id other : Text)
    → text_eq user_id other ≡ false
    → (m : Member) → is_member workspace_id user_id m ≡ true
    → is_member workspace_id other m ≡ false
unfolding is_member
other_key workspace_id user_id other apart m h =
    ground
      (arith, text_eq_iff m.user_id user_id, text_eq_iff m.user_id other, text_eq_iff user_id other)

key_owner :
    (workspace_id user_id : Text) (m : Member) (v : Text)
    → is_member workspace_id user_id m ≡ true
    → is_owner v m ≡ (text_eq workspace_id v && text_eq m.role owner)
unfolding is_member
key_owner workspace_id user_id m v h =
    let same = (text_eq_iff m.workspace_id workspace_id).0 (ground arith) in rw same refl

no_role : text_eq [] owner ≡ false
unfolding text_eq
no_role = refl

-- The first owner that a workspace has is the only one.
only_owner :
    (members : List Member) (workspace_id from to : Text) (m target : Member)
    → find (is_member workspace_id from) members ≡ some m
    → find (is_member workspace_id to) members ≡ some target
    → text_eq m.role owner ≡ true
    → text_eq from to ≡ false
    → count (is_member workspace_id from) members ≤ 1
    → count (is_owner workspace_id) members ≤ 1
    → text_eq target.role owner ≡ false
only_owner members workspace_id from to m target found found' high apart few single =
    elim (Bool-cases (text_eq target.role owner)) [
      | inr low ↦ low
      | inl high' ↦
          let lowered =
            count-update_where (is_member workspace_id from) (is_owner workspace_id) (with_role [])
              members few found in
          let still =
            find-update_where (is_member workspace_id from) (is_member workspace_id to)
              (with_role [])
              (other_key workspace_id to from
                (ground (arith, text_eq_iff from to, text_eq_iff to from)))
              (key_kept workspace_id to []) members in
          let left =
            count-find (is_member workspace_id to) (is_owner workspace_id)
              (update_where (is_member workspace_id from) (with_role []) members) {x = target}
              (ground arith)
              (ground (
                arith,
                key_owner workspace_id to target workspace_id
                    (find_sound (is_member workspace_id to) members found'),
                text_eq_iff workspace_id workspace_id,
              )) in
          let own =
            key_owner workspace_id from m workspace_id
              (find_sound (is_member workspace_id from) members found) in
          let nobody : text_eq [] owner ≡ false = no_role in
          absurd (ground (arith, text_eq_iff workspace_id workspace_id))
    ]

-- The owner of a workspace may exchange the role with another member.
pub OneOwner-transferred :
    (after before : Database) (workspace_id from to lower : Text) (m target : Member)
    → after.members
      ≡ update_where
          (is_member workspace_id from)
          (with_role lower)
          (update_where (is_member workspace_id to) (with_role owner) before.members)
    → after.workspaces ≡ before.workspaces
    → find (is_member workspace_id from) before.members ≡ some m
    → find (is_member workspace_id to) before.members ≡ some target
    → text_eq m.role owner ≡ true
    → text_eq from to ≡ false
    → text_eq lower owner ≡ false
    → OneOwner before
    → OneOwner after
unfolding is_member
OneOwner-transferred after before workspace_id from to lower m target members workspaces found
      found' high apart low h =
    let raised = update_where (is_member workspace_id to) (with_role owner) before.members in
    let keys : (v u : Text) → count (is_member v u) raised ≡ count (is_member v u) before.members =
      λ v u.
        count-update_where-same (is_member workspace_id to) (is_member v u) (with_role owner)
          (key_kept v u owner) before.members in
    let few : count (is_member workspace_id from) raised ≤ 1 =
      rw (keys workspace_id from) (h.memberships workspace_id from) in
    let still : find (is_member workspace_id from) raised ≡ some m =
      find-update_where (is_member workspace_id to) (is_member workspace_id from) (with_role owner)
        (other_key workspace_id from to apart) (key_kept workspace_id from owner) before.members
      ∙ found in
    let target_low =
      only_owner before.members workspace_id from to m target found found' high apart
        (h.memberships workspace_id from) (rw (h.owners workspace_id) (h.ids workspace_id)) in
    record {
      owners = λ v.
          let up =
            count-update_where (is_member workspace_id to) (is_owner v) (with_role owner)
              before.members (h.memberships workspace_id to) found' in
          let down =
            count-update_where (is_member workspace_id from) (is_owner v) (with_role lower) raised
              few still in
          let total = h.owners v in
          let own =
            key_owner workspace_id from m v
              (find_sound (is_member workspace_id from) before.members found) in
          let own' =
            key_owner workspace_id to (with_role owner target) v
              (find_sound (is_member workspace_id to) before.members found') in
          rw (members, workspaces) (ground (arith, text_eq_iff owner owner));
      memberships = λ v u.
          let same =
            count-update_where-same (is_member workspace_id from) (is_member v u) (with_role lower)
              (key_kept v u lower) raised in
          let few' = h.memberships v u in let same' = keys v u in rw members (ground arith);
      ids = λ v. rw workspaces (h.ids v);
    }
