-- ===== src/Identity/Roles.antt =====
-- What the roles grant, and which lists of scopes a token may have.
use dynamis_code_apps_templa.Prelude.{
  ◌≡◌, refl, true, false, ◌↔◌, inl, inr, List, [], ◌∷◌, Text, arith, All, all, subst, any, is_nil,
  text_eq, text_eq_iff, text_key, UniqueBy, has_key, Bool-cases,
}
use dynamis_code_apps_templa.Identity.Policy.{
  owner, admin, member, viewer, contains, permissions_for_role, scopes_from, valid_scopes,
}

contains_subset :
    (p : Text) (ps qs : List Text)
    → all (λ q. contains q qs) ps ≡ true
    → contains p ps ≡ true
    → contains p qs ≡ true
unfolding contains
contains_subset p [] qs h m = cc
contains_subset p (r ∷ rs) qs h m = elim (Bool-cases (text_eq r p)) [
  | inl same ↦ subst (λ t. contains t qs ≡ true) ((text_eq_iff r p).0 same) (ground arith)
  | inr other ↦ contains_subset p rs qs (ground arith) (rw other at m)
]

-- Each role grants what the role below it grants: viewer, member, admin, owner.
pub role_ladder :
    (p : Text)
    → (contains p (permissions_for_role viewer) ≡ true
        → contains p (permissions_for_role member) ≡ true)
      × (contains p (permissions_for_role member) ≡ true
          → contains p (permissions_for_role admin) ≡ true)
      × (contains p (permissions_for_role admin) ≡ true
          → contains p (permissions_for_role owner) ≡ true)
unfolding permissions_for_role contains text_eq
role_ladder p = (
  contains_subset p (permissions_for_role viewer) (permissions_for_role member) refl,
  contains_subset p (permissions_for_role member) (permissions_for_role admin) refl,
  contains_subset p (permissions_for_role admin) (permissions_for_role owner) refl,
)

IsFresh : Text → List Text → Type 0
IsFresh s ss = any (has_key (λ (t : Text). t) s) ss ≡ false

split_seen :
    (s : Text) (seen ss : List Text)
    → All (λ t. contains t (s ∷ seen) ≡ false) ss
    → IsFresh s ss × All (λ t. contains t seen ≡ false) ss
unfolding contains IsFresh
split_seen s seen [] h = (refl, tt)
split_seen s seen (t ∷ ts) h =
    let rest = split_seen s seen ts h.1 in
    (ground (arith, rest.0, text_eq_iff s t, text_eq_iff t s), (ground arith, rest.1))

join_seen :
    (s : Text) (seen ss : List Text)
    → IsFresh s ss
    → All (λ t. contains t seen ≡ false) ss
    → All (λ t. contains t (s ∷ seen) ≡ false) ss
unfolding contains IsFresh
join_seen s seen [] f h = tt
join_seen s seen (t ∷ ts) f h =
    (ground (arith, text_eq_iff s t, text_eq_iff t s), join_seen s seen ts (ground arith) h.1)

abbrev Accepted : List Text → List Text → List Text → Type 0
Accepted seen allowed ss =
    All (λ s. contains s allowed ≡ true) ss
    × All (λ s. contains s seen ≡ false) ss
    × UniqueBy (λ (s : Text). s) ss

scopes_from_iff :
    (seen allowed ss : List Text) → (scopes_from seen allowed ss ≡ true) ↔ Accepted seen allowed ss
unfolding scopes_from IsFresh
scopes_from_iff seen allowed [] = (λ _. (tt, tt, tt), λ _. refl)
scopes_from_iff seen allowed (s ∷ ss) =
    let rest = scopes_from_iff (s ∷ seen) allowed ss in
    (
      λ h.
          let below : scopes_from (s ∷ seen) allowed ss ≡ true = ground arith in
          let (good, unseen, unique) = rest.0 below in
          let (fresh, old) = split_seen s seen ss unseen in
          ((ground arith, good), (ground arith, old), (fresh, unique)),
      λ h.
          let below = rest.1 (h.0.1, join_seen s seen ss h.2.0 h.1.1, h.2.1) in
          ground (arith, below),
    )

-- A list of scopes is accepted exactly when it is not empty, every scope is allowed, and none stands
-- in it twice.
pub valid_scopes_iff :
    (scopes allowed : List Text)
    → (valid_scopes scopes allowed ≡ true) ↔ (
        (is_nil scopes ≡ false)
        × All (λ s. contains s allowed ≡ true) scopes
        × UniqueBy (λ (s : Text). s) scopes)
unfolding valid_scopes contains
valid_scopes_iff [] allowed = (λ h. cc, λ h. cc)
valid_scopes_iff (s ∷ ss) allowed =
    let (to, from) = scopes_from_iff [] allowed (s ∷ ss) in
    (
      λ h. let (good, _, unique) = to h in (refl, good, unique),
      λ h. from (h.1, nothing_seen (s ∷ ss), h.2),
    )
  where
    nothing_seen : (ts : List Text) → All (λ t. contains t [] ≡ false) ts
    nothing_seen [] = tt
    nothing_seen (t ∷ ts) = (refl, nothing_seen ts)
