-- ===== src/Items/Feed/Later.antt =====
-- internal/items/events.go: the changes behind a cursor of `Changes`.
use dynamis_code_apps_templa.Prelude.{
  ℕ, ◌≡◌, refl, sym, ap, subst, ◌∙◌, ◌⊎◌, true, false, ◌&&◌, not, Option, none, some, List, [], ◌∷◌,
  ◌++◌, Text, filter, take, text_eq, text_eq_iff, text_key, text_leb_total, text_leb_trans,
  text_leb_antisym, UniqueBy, has_key, any, All, arith,
}
use dynamis_code_apps_templa.Prelude.Sort.{
  sort, Strict, Distinct, Distinct-filter, filter-sort, sort-Strict, filter-behind, filter-same,
  filter-and, filter-narrow, All-passed, Strict-filter,
}
use dynamis_code_apps_templa.Schema.{Change}
use dynamis_code_apps_templa.Items.Changes.{in_workspace}
use dynamis_code_apps_templa.Items.Feed.{change_leb, later_than, change_rows}

change_leb_total : (a b : Change) → (change_leb a b ≡ true) ⊎ (change_leb b a ≡ true)
unfolding change_leb
change_leb_total a b = ground (arith, text_leb_total a.id b.id)

change_leb_trans :
    (a b c : Change) → change_leb a b ≡ true → change_leb b c ≡ true → change_leb a c ≡ true
unfolding change_leb
change_leb_trans a b c h k = ground (arith, text_leb_trans a.id b.id c.id)

change_leb-antisym :
    (a b : Change) → text_eq b.id a.id ≡ false → (change_leb a b && change_leb b a) ≡ false
unfolding change_leb
change_leb-antisym a b other = ground (arith, text_leb_antisym a.id b.id, text_eq_iff b.id a.id)

distinct_from :
    (a : Change) (changes : List Change)
    → any (has_key (λ (c : Change). c.id) a.id) changes ≡ false
    → All (λ b. (change_leb a b && change_leb b a) ≡ false) changes
distinct_from a [] h = tt
distinct_from a (b ∷ changes) h =
    (change_leb-antisym a b (ground arith), distinct_from a changes (ground arith))

changes-Distinct :
    (changes : List Change) → UniqueBy (λ c. c.id) changes → Distinct change_leb changes
changes-Distinct [] u = tt
changes-Distinct (a ∷ changes) u = (distinct_from a changes u.0, changes-Distinct changes u.1)

-- What stands later than a change stands strictly behind it.
later_than-change_leb : (c d : Change) → later_than (some c) d ≡ not (change_leb d c)
unfolding change_leb
later_than-change_leb c d = ground (arith, text_leb_total c.id d.id)

later_than_trans :
    (position : Option Change) (c d : Change)
    → later_than position c ≡ true
    → later_than (some c) d ≡ true
    → later_than position d ≡ true
later_than_trans none c d h k = refl
later_than_trans (some p) c d h k = ground (
  arith,
  later_than-change_leb p c,
  later_than-change_leb c d,
  later_than-change_leb p d,
  change_leb_total c d,
  change_leb_trans c d p,
)

-- The changes of a workspace, the oldest first, and those behind a position.
abbrev pub feed : Text → List Change → List Change
feed workspace_id changes = sort change_leb (filter (in_workspace workspace_id) changes)

abbrev pub behind : Text → List Change → Option Change → List Change
behind workspace_id changes position = filter (later_than position) (feed workspace_id changes)

feed-Strict :
    (workspace_id : Text) (changes : List Change)
    → UniqueBy (λ c. c.id) changes
    → Strict change_leb (feed workspace_id changes)
feed-Strict workspace_id changes unique =
    sort-Strict change_leb change_leb_total change_leb_trans _ (
      Distinct-filter change_leb (in_workspace workspace_id) changes
        (changes-Distinct changes unique))

pub change_rows-behind :
    (workspace_id : Text) (limit : ℕ) (position : Option Change) (changes : List Change)
    → UniqueBy (λ c. c.id) changes
    → change_rows workspace_id limit position changes
      ≡ take limit (behind workspace_id changes position)
unfolding change_rows
change_rows-behind workspace_id limit position changes unique =
    let here = in_workspace workspace_id in
    ap (take limit) (
      ap (sort change_leb) (filter-and here (later_than position) changes)
      ∙ sym (
          filter-sort change_leb change_leb_total change_leb_trans (later_than position)
            (filter here changes)
            (Distinct-filter change_leb here changes (changes-Distinct changes unique))))

-- Behind a change of the feed stands the rest of the feed.
pub behind-rest :
    (workspace_id : Text) (changes : List Change) (position : Option Change) (front : List Change)
    (c : Change) (rest : List Change)
    → UniqueBy (λ c. c.id) changes
    → behind workspace_id changes position ≡ front ++ c ∷ rest
    → behind workspace_id changes (some c) ≡ rest
behind-rest workspace_id changes position front c rest unique split =
    let passed : All (λ d. later_than position d ≡ true) (front ++ c ∷ rest) =
      subst (All (λ d. later_than position d ≡ true)) split
        (All-passed (later_than position) (feed workspace_id changes)) in
    let strict = subst (Strict change_leb) split (
      Strict-filter change_leb (later_than position) _ (feed-Strict workspace_id changes unique)) in
    filter-narrow (later_than position) (later_than (some c)) (feed workspace_id changes)
      (λ d. later_than_trans position c d (middle front passed))
    ∙ ap (filter (later_than (some c))) split
    ∙ filter-same _ _ (front ++ c ∷ rest) (later_than-change_leb c)
    ∙ filter-behind change_leb change_leb_total change_leb_trans front c rest strict
  where
    middle :
        (front : List Change)
        → All (λ d. later_than position d ≡ true) (front ++ c ∷ rest)
        → later_than position c ≡ true
    middle [] h = h.0
    middle (d ∷ front) h = middle front h.1
