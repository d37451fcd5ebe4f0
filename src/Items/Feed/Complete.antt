-- ===== src/Items/Feed/Complete.antt =====
-- internal/items/events.go: `Changes` leaves nothing out between two pages.
use mathlib.Core.List.{append_assoc}
use dynamis_code_apps_templa.Prelude.{
  ℕ, zero, suc, ◌≡◌, refl, sym, ap, subst, ◌∙◌, ◌<◌, inl, inr, Bool, true, false, Option, none,
  some, List, [], ◌∷◌, ◌++◌, Text, filter, find, take, drop, is_nil, text_eq, text_eq_iff,
  text_eq_refl, text_key, UniqueBy, unique_row, All, All-map, All-map₂, All-In, In, arith,
  Bool-cases, Option-cases, if◌then◌else◌,
}
use dynamis_code_apps_templa.Prelude.Int.{ℤ, pos, negsuc}
use dynamis_code_apps_templa.Prelude.Sort.{All-filter, All-sort, All-passed}
use dynamis_code_apps_templa.Schema.{Change, Database}
use dynamis_code_apps_templa.Exec.{
  Result-cases, ok, World, query, statement, behind as faults_behind,
}
use dynamis_code_apps_templa.Identity.{Principal, permit}
use dynamis_code_apps_templa.Identity.Authorize.{permit-db}
use dynamis_code_apps_templa.Identity.Policy.{resources_read}
use dynamis_code_apps_templa.Items.Input.{valid_cursor_id}
use dynamis_code_apps_templa.Items.Changes.{in_workspace}
use dynamis_code_apps_templa.Items.Listing.{page_size}
use dynamis_code_apps_templa.Items.Feed.{
  ChangePage, changes, read_after, read_behind, read_changes, latest_change_id, change_rows,
  is_change, change_origin_cursor, last_id,
}
use dynamis_code_apps_templa.Items.Feed.Later.{behind, change_rows-behind, behind-rest}

-- The position of a cursor: before every change, or at a change of the workspace.
abbrev pub position_at : Text → List Change → Text → Option (Option Change)
position_at workspace_id changes after =
    if text_eq after change_origin_cursor
    then some none
    else elim (find (is_change workspace_id after) changes) [ none ↦ none | some c ↦ some (some c) ]

-- What the holder of a cursor has not seen, the oldest first.
abbrev pub unseen_from : Text → List Change → Option (Option Change) → List Change
unseen_from workspace_id changes none = []
unseen_from workspace_id changes (some position) = behind workspace_id changes position

unfoldable pub unseen : Text → List Change → Text → List Change
unseen workspace_id changes after =
    unseen_from workspace_id changes (position_at workspace_id changes after)

read_changes-ok :
    (workspace_id after : Text) (limit : ℕ) (position : Option Change) (w : World)
    {page : ChangePage}
    → (read_changes workspace_id after limit position w).0 ≡ ok page
    → (page.changes ≡ change_rows workspace_id limit position w.db.changes)
      × (page.next ≡ last_id after page.changes)
unfolding read_changes query statement
read_changes-ok workspace_id after limit position w {page} h = (ground arith, ground arith)

read_after-ok :
    (workspace_id after latest : Text) (limit : ℕ) (w : World) {page : ChangePage}
    → (read_after workspace_id after limit latest w).0 ≡ ok page
    → page.resync ≡ false
    → (position : Option Change) × (position_at workspace_id w.db.changes after ≡ some position)
      × (page.changes ≡ change_rows workspace_id limit position w.db.changes)
      × (page.next ≡ last_id after page.changes)
unfolding read_after read_behind read_changes query statement
read_after-ok workspace_id after latest limit w {page} h new = elim (Bool-cases (is_nil after)) [
  | inl start ↦ absurd (ground arith)
  | inr given ↦ elim (Bool-cases (text_eq after change_origin_cursor)) [
    | inl origin ↦
        let (rows, next_cursor) =
          read_changes-ok workspace_id after limit none w {page = page} (ground arith) in
        (none, rw origin refl, rows, next_cursor)
    | inr other ↦ elim (Option-cases (find (is_change workspace_id after) w.db.changes)) [
      | inl gone ↦ absurd (ground arith)
      | inr (c, stored) ↦
          let v = record w { faults = faults_behind w.faults } in
          let (rows, next_cursor) =
            read_changes-ok workspace_id after limit (some c) v {page = page} (ground arith) in
          (some c, rw (other, stored) refl, rows, next_cursor)
    ]
  ]
]

latest_change_id-db :
    (workspace_id : Text) (w : World) → (latest_change_id workspace_id w).1.db ≡ w.db
unfolding latest_change_id query statement
latest_change_id-db workspace_id w = ground arith

changes-ok :
    (actor : Principal) (workspace_id after : Text) (limit : ℤ) (w : World) {page : ChangePage}
    → (changes actor workspace_id after limit w).0 ≡ ok page
    → (n : ℕ) × (page_size limit ≡ some n)
      × (latest : Text) × (v : World) × (v.db ≡ w.db)
      × ((read_after workspace_id after n latest v).0 ≡ ok page)
unfolding changes
changes-ok actor workspace_id after limit w {page} h = elim (Option-cases (page_size limit)) [
  | inl unsized ↦ absurd (ground arith)
  | inr (n, sized) ↦ elim (Result-cases (permit actor workspace_id resources_read w).0) [
    | inr (e, refused) ↦ absurd (ground arith)
    | inl (u, granted) ↦
        let v = (permit actor workspace_id resources_read w).1 in
        elim (Result-cases (latest_change_id workspace_id v).0) [
          | inr (e, failed) ↦ absurd (ground arith)
          | inl (latest, found) ↦ (
            n,
            sized,
            latest,
            (latest_change_id workspace_id v).1,
            latest_change_id-db workspace_id v ∙ permit-db actor workspace_id resources_read w,
            ground arith,
          )
        ]
  ]
]

-- A change of the workspace is found under its id, which is not the origin's.
abbrev Known : Text → List Change → Change → Type 0
Known workspace_id changes c = position_at workspace_id changes c.id ≡ some (some c)

find_only :
    (p : Change → Bool) (c : Change) (changes : List Change)
    → In c changes
    → p c ≡ true
    → All (λ d. p d ≡ true → d ≡ c) changes
    → find p changes ≡ some c
find_only p c [] m h only = absurd m
find_only p c (d ∷ ds) m h only = elim (Bool-cases (p d)) [
  | inl hit ↦ rw hit (ap some (only.0 hit))
  | inr miss ↦ elim m [
    | inl same ↦ absurd (let e : p d ≡ true = rw same h in ground arith)
    | inr further ↦ rw miss (find_only p c ds further h only.1)
  ]
]

All-self :
    (P : Change → Type 0) (changes : List Change)
    → ((c : Change) → In c changes → P c)
    → All P changes
All-self P [] h = tt
All-self P (c ∷ cs) h = (h c (inl refl), All-self P cs (λ d m. h d (inr m)))

not_origin : (c : Change) → valid_cursor_id c.id ≡ true → text_eq c.id change_origin_cursor ≡ false
unfolding valid_cursor_id text_eq
not_origin c h = elim (Bool-cases (text_eq c.id change_origin_cursor)) [
  | inr other ↦ other
  | inl same ↦
      let bad : valid_cursor_id change_origin_cursor ≡ true =
        subst (λ s. valid_cursor_id s ≡ true) ((text_eq_iff c.id change_origin_cursor).0 same) h in
      absurd (ground arith)
]

is_change-Known :
    (workspace_id : Text) (changes : List Change) (c : Change)
    → UniqueBy (λ d. d.id) changes
    → All (λ d. valid_cursor_id d.id ≡ true) changes
    → In c changes
    → in_workspace workspace_id c ≡ true
    → Known workspace_id changes c
is_change-Known workspace_id changes c unique ids m here =
    let stored : find (is_change workspace_id c.id) changes ≡ some c =
      find_only (is_change workspace_id c.id) c changes m (rw (here, text_eq_refl c.id) refl) (
        All-map _ _ changes (λ d only hit. only ((text_eq_iff d.id c.id).0 (ground arith)))
          (unique_row (λ (d : Change). d.id) c changes unique m)) in
    rw (not_origin c (All-In _ c changes ids m), stored) refl

behind-Known :
    (workspace_id : Text) (changes : List Change) (position : Option Change)
    → UniqueBy (λ d. d.id) changes
    → All (λ d. valid_cursor_id d.id ≡ true) changes
    → All (Known workspace_id changes) (behind workspace_id changes position)
behind-Known workspace_id changes position unique ids = All-filter _ _ _ (
    All-sort _ _ _ (
      All-map₂ _ _ _ (filter (in_workspace workspace_id) changes) (λ c known here. known here)
        (All-filter _ (in_workspace workspace_id) changes (
          All-self (λ c. in_workspace workspace_id c ≡ true → Known workspace_id changes c) changes
            (λ c m here. is_change-Known workspace_id changes c unique ids m here)))
        (All-passed (in_workspace workspace_id) changes)))

-- The end of a page that is not empty.
last_split :
    (c : Change) (cs : List Change)
    → (front : List Change) × (d : Change) × (c ∷ cs ≡ front ++ d ∷ [])
      × ((after : Text) → last_id after (c ∷ cs) ≡ d.id)
last_split c [] = ([], c, refl, λ after. refl)
last_split c (d ∷ ds) =
    let (front, e, whole, ends) = last_split d ds in
    (c ∷ front, e, ap (λ l. c ∷ l) whole, λ after. ends c.id)

take-drop : (n : ℕ) (xs : List Change) → take n xs ++ drop n xs ≡ xs
take-drop zero xs = refl
take-drop (suc n) [] = refl
take-drop (suc n) (x ∷ xs) = ap (λ l. x ∷ l) (take-drop n xs)

drop-none : (n : ℕ) (xs : List Change) → 0 < n → take n xs ≡ [] → drop n xs ≡ xs
drop-none zero xs h e = refl
drop-none (suc n) [] h e = refl
drop-none (suc n) (x ∷ xs) h e = absurd (ground arith)

page_size-pos : (limit : ℤ) {n : ℕ} → page_size limit ≡ some n → 0 < n
page_size-pos (negsuc k) {n} h = absurd (ground arith)
page_size-pos (pos k) {n} h = ground arith

middle_of :
    (P : Change → Type 0) (front : List Change) (c : Change) (rest : List Change)
    → All P (front ++ c ∷ rest)
    → P c
middle_of P [] c rest h = h.0
middle_of P (d ∷ front) c rest h = middle_of P front c rest h.1

-- The cursor behind a page stands behind the changes of the page.
unseen-last_id :
    (workspace_id after : Text) (n : ℕ) (position : Option Change) (changes rows : List Change)
    → UniqueBy (λ d. d.id) changes
    → All (λ d. valid_cursor_id d.id ≡ true) changes
    → position_at workspace_id changes after ≡ some position
    → 0 < n
    → take n (behind workspace_id changes position) ≡ rows
    → unseen workspace_id changes (last_id after rows)
      ≡ drop n (behind workspace_id changes position)
unfolding unseen
unseen-last_id workspace_id after n position changes [] unique ids resolved h none_left =
    ap (unseen_from workspace_id changes) resolved
    ∙ sym (drop-none n (behind workspace_id changes position) h none_left)
unseen-last_id workspace_id after n position changes (c ∷ cs) unique ids resolved h some_left =
    let found = behind workspace_id changes position in
    let (front, d, whole, ends) = last_split c cs in
    let split : found ≡ front ++ d ∷ drop n found =
      sym (take-drop n found)
      ∙ ap (λ l. l ++ drop n found) (some_left ∙ whole)
      ∙ append_assoc front (d ∷ []) (drop n found) in
    let known : Known workspace_id changes d =
      middle_of (Known workspace_id changes) front d (drop n found) (
        subst (All (Known workspace_id changes)) split
          (behind-Known workspace_id changes position unique ids)) in
    ap (λ t. unseen_from workspace_id changes (position_at workspace_id changes t)) (ends after)
    ∙ ap (unseen_from workspace_id changes) known
    ∙ behind-rest workspace_id changes position front d (drop n found) unique split

-- A page of the change feed that is not a resynchronization, whatever the faults of the database and
-- where ids are unique and have the form of the service's own: it holds the oldest changes of the
-- workspace that the cursor's holder has not seen, as many as asked for, and what its next cursor
-- leaves unseen is the rest of them, none left out and none twice.
pub changes-unseen :
    (actor : Principal) (workspace_id after : Text) (limit : ℤ) (w : World) (page : ChangePage)
    → UniqueBy (λ d. d.id) w.db.changes
    → All (λ d. valid_cursor_id d.id ≡ true) w.db.changes
    → (changes actor workspace_id after limit w).0 ≡ ok page
    → page.resync ≡ false
    → (n : ℕ) × (page_size limit ≡ some n)
      × (page.changes ≡ take n (unseen workspace_id w.db.changes after))
      × (unseen workspace_id w.db.changes page.next
          ≡ drop n (unseen workspace_id w.db.changes after))
unfolding unseen
changes-unseen actor workspace_id after limit w page unique ids h new =
    let (n, sized, latest, v, same, read) =
      changes-ok actor workspace_id after limit w {page = page} h in
    let (position, resolved, rows, ends) =
      read_after-ok workspace_id after latest n v {page = page} read new in
    let table : v.db.changes ≡ w.db.changes = ap (λ (db : Database). db.changes) same in
    let resolved' : position_at workspace_id w.db.changes after ≡ some position =
      subst (λ l. position_at workspace_id l after ≡ some position) table resolved in
    let taken : page.changes ≡ take n (behind workspace_id w.db.changes position) =
      rows
      ∙ ap (change_rows workspace_id n position) table
      ∙ change_rows-behind workspace_id n position w.db.changes unique in
    let here = ap (unseen_from workspace_id w.db.changes) resolved' in
    (
      n,
      sized,
      taken ∙ ap (take n) (sym here),
      ap (λ t. unseen_from workspace_id w.db.changes (position_at workspace_id w.db.changes t)) ends
          ∙ unseen-last_id workspace_id after n position w.db.changes page.changes unique ids
              resolved' (page_size-pos limit sized) (sym taken)
          ∙ ap (drop n) (sym here),
    )
