-- ===== src/Items/Import/Stored.antt =====
-- internal/items/service.go: what `ImportInTx` stores.
use mathlib.Core.List.{append-nil, append_assoc}
use dynamis_code_apps_templa.Prelude.{
  ℕ, suc, ◌+◌, ◌≤◌, ◌≡◌, refl, sym, ap, subst, Bool, true, false, some, List, [], ◌∷◌, ◌++◌, Text,
  ascii, length, count, is_nil, leb, text_eq, text_eq_refl, text_eq_iff, trim_space, valid_utf8,
  rune_count, ◌||◌, ◌⊎◌, if◌then◌else◌, arith, inl, inr, Bool-cases, Option-cases,
}
use dynamis_code_apps_templa.Schema.{Item}
use dynamis_code_apps_templa.Exec.{Result-cases, ok, World, query, statement, fresh}
use dynamis_code_apps_templa.Identity.{Principal, permit}
use dynamis_code_apps_templa.Identity.Policy.{workspace_update}
use dynamis_code_apps_templa.Identity.Authorize.{permit-db}
use dynamis_code_apps_templa.Items.{Service}
use dynamis_code_apps_templa.Items.Input.{
  active, ImportItem, normalize_import_item, too_long, valid_status, validate_title,
}
use dynamis_code_apps_templa.Items.Frame.{record_change-SameItems}
use dynamis_code_apps_templa.Items.Changes.{record_change}
use dynamis_code_apps_templa.Items.Create.{insert_item, count_items}
use dynamis_code_apps_templa.Items.Import.{
  imported_item, write_item, import_normalized, import_items, import_in_tx,
}

abbrev pub in_workspace : Text → Item → Bool
in_workspace workspace_id i = text_eq i.workspace_id workspace_id

insert_item-ok :
    (item : Item) (w : World) {u : _}
    → (insert_item item w).0 ≡ ok u
    → (insert_item item w).1.db.items ≡ w.db.items ++ item ∷ []
unfolding insert_item statement
insert_item-ok item w {u} h = ground arith

write_item-ok :
    (actor : Principal) (workspace_id : Text) (now : ℕ) (item : Item) (w : World) {i : Item}
    → (write_item actor workspace_id now item w).0 ≡ ok i
    → (i ≡ item) × ((write_item actor workspace_id now item w).1.db.items ≡ w.db.items ++ item ∷ [])
unfolding write_item
write_item-ok actor workspace_id now item w {i} h = elim (Result-cases (insert_item item w).0) [
  | inr (e, failed) ↦ absurd (ground arith)
  | inl (u, inserted) ↦
      let v = (insert_item item w).1 in
      let action = ascii "created" in
      elim (Result-cases (record_change workspace_id item.id action item.version now v).0) [
        | inr (e, failed) ↦ absurd (ground arith)
        | inl (x, recorded) ↦
            let (same, _) =
              record_change-SameItems workspace_id item.id action item.version now v in
            (ground arith, ground (arith, same, insert_item-ok item w {u = u} inserted))
      ]
]

module _ (actor : Principal) (workspace_id : Text) (now : ℕ) where
  -- What an import makes of a value: the trimmed title, which has 1 to 200 characters of valid UTF-8; the
  -- status of the value, active where it is empty; the first version, at the time of the import.
  pub record IsImported (value : ImportItem) (i : Item) : Type 0 where
    pub title_of : i.title ≡ trim_space value.title
    pub title_full : is_nil (trim_space value.title) ≡ false
    pub title_valid : valid_utf8 (trim_space value.title) ≡ true
    pub title_short : rune_count (trim_space value.title) ≤ 200
    pub status_given : is_nil value.status ≡ false → i.status ≡ value.status
    pub status_default : is_nil value.status ≡ true → i.status ≡ ascii "active"
    pub status_known : (i.status ≡ ascii "active") ⊎ (i.status ≡ ascii "complete")
    pub version_of : i.version ≡ 1
    pub workspace_of : i.workspace_id ≡ workspace_id
    pub creator_of : i.created_by_user_id ≡ some actor.user_id
    pub created : i.created_at ≡ now
    pub updated : i.updated_at ≡ now

  normalize_import_item-IsImported :
      (value v : ImportItem) (item_id : Text)
      → normalize_import_item value ≡ some v
      → IsImported value (imported_item actor workspace_id now item_id v)
  unfolding normalize_import_item validate_title imported_item
  normalize_import_item-IsImported value v item_id valid =
      let title = trim_space value.title in
      let status = if is_nil value.status then active else value.status in
      elim (Bool-cases (is_nil title || too_long 200 title)) [
        | inl bad ↦ absurd (ground arith)
        | inr fine ↦ elim (Bool-cases (valid_status status)) [
          | inr unknown ↦ absurd (ground arith)
          | inl known ↦
              let made : v ≡ record { title = title; status = status } = ground arith in
              rw made (record {
                title_of = refl;
                title_full = ground arith;
                title_valid = ground arith;
                title_short = ground arith;
                status_given = λ given. rw given refl;
                status_default = λ missing. rw missing refl;
                status_known = ground (
                  arith,
                  text_eq_iff status (ascii "active"),
                  text_eq_iff status (ascii "complete"),
                );
                version_of = refl;
                workspace_of = refl;
                creator_of = refl;
                created = refl;
                updated = refl;
              })
        ]
      ]

  -- The items are those of the input, one for each and in their order.
  abbrev pub Imported : List ImportItem → List Item → Type 0
  Imported [] [] = Unit
  Imported [] (i ∷ items) = ⊥
  Imported (value ∷ input) [] = ⊥
  Imported (value ∷ input) (i ∷ items) = IsImported value i × Imported input items

  fresh-db : (w : World) → (fresh w).1.db ≡ w.db
  unfolding fresh
  fresh-db w = refl

  import_normalized-ok :
      (value : ImportItem) (w : World) {i : Item}
      → (import_normalized actor workspace_id now (normalize_import_item value) w).0 ≡ ok i
      → IsImported value i
        × ((import_normalized actor workspace_id now (normalize_import_item value) w).1.db.items
            ≡ w.db.items ++ i ∷ [])
  unfolding import_normalized
  import_normalized-ok value w {i} h = elim (Option-cases (normalize_import_item value)) [
    | inl invalid ↦ absurd (ground arith)
    | inr (v, valid) ↦ elim (Result-cases (fresh w).0) [
      | inr (e, failed) ↦ absurd (ground arith)
      | inl (item_id, drawn) ↦
          let (same, items) =
            write_item-ok actor workspace_id now (imported_item actor workspace_id now item_id v)
              (fresh w).1 {i = i} (ground arith) in
          (
            rw same (normalize_import_item-IsImported value v item_id valid),
            ground (arith, items, same, fresh-db w),
          )
    ]
  ]

  import_items-ok :
      (input : List ImportItem) (w : World) {items : List Item}
      → (import_items actor workspace_id now input w).0 ≡ ok items
      → Imported input items
        × ((import_items actor workspace_id now input w).1.db.items ≡ w.db.items ++ items)
  unfolding import_items
  import_items-ok [] w {items = []} h = (tt, sym (append-nil w.db.items))
  import_items-ok [] w {items = i ∷ items} h = absurd (ground arith)
  import_items-ok (value ∷ input) w {items} h =
      let first = import_normalized actor workspace_id now (normalize_import_item value) w in
      elim (Result-cases first.0) [
        | inr (e, failed) ↦ absurd (ground arith)
        | inl (item, imported) ↦
            elim (Result-cases (import_items actor workspace_id now input first.1).0) [
              | inr (e, failed) ↦ absurd (ground arith)
              | inl (rest, others) ↦
                  let (here, added) = import_normalized-ok value w {i = item} imported in
                  let (behind, more) = import_items-ok input first.1 {items = rest} others in
                  let whole : item ∷ rest ≡ items = ground arith in
                  (
                    subst (Imported (value ∷ input)) whole (here, behind),
                    ground (arith, added, more, append_assoc w.db.items (item ∷ []) rest),
                  )
            ]
      ]

length-Imported :
    (actor : Principal) (workspace_id : Text) (now : ℕ) (input : List ImportItem)
    (items : List Item)
    → Imported actor workspace_id now input items
    → (length items ≡ length input) × (count (in_workspace workspace_id) items ≡ length input)
length-Imported actor workspace_id now [] [] h = (refl, refl)
length-Imported actor workspace_id now [] (i ∷ items) h = absurd h
length-Imported actor workspace_id now (value ∷ input) [] h = absurd h
length-Imported actor workspace_id now (value ∷ input) (i ∷ items) h =
    let (same, here) = length-Imported actor workspace_id now input items h.1 in
    let own : text_eq i.workspace_id workspace_id ≡ true =
      rw h.0.workspace_of (text_eq_refl workspace_id) in
    (ap suc same, rw own (ap suc here))

count-join : (p : Item → Bool) (a b : List Item) → count p (a ++ b) ≡ count p a + count p b
count-join p [] b = omega arith
count-join p (i ∷ a) b = ground (arith, count-join p a b)

count_items-ok :
    (workspace_id : Text) (w : World) {n : ℕ}
    → (count_items workspace_id w).0 ≡ ok n
    → (n ≡ count (in_workspace workspace_id) w.db.items)
      × ((count_items workspace_id w).1.db ≡ w.db)
unfolding count_items query statement
count_items-ok workspace_id w {n} h = (ground arith, ground arith)

-- An import that succeeds, whatever the faults of the database: the input is not empty; the items are
-- those of the input, one for each and in their order, each with the trimmed title, which is valid and
-- has 1 to 200 characters, with the given status or active where none is given, in version 1, in the
-- workspace, created by the actor at the given time; they stand behind the items of before, and the workspace has no more items than it may have.
pub import_in_tx-Imported :
    (s : Service) (actor : Principal) (workspace_id : Text) (input : List ImportItem) (now : ℕ)
    (w : World) (items : List Item)
    → (import_in_tx s actor workspace_id input now w).0 ≡ ok items
    → (is_nil input ≡ false)
      × Imported actor workspace_id now input items
      × ((import_in_tx s actor workspace_id input now w).1.db.items ≡ w.db.items ++ items)
      × (count (in_workspace workspace_id) (w.db.items ++ items) ≤ s.max_items)
unfolding import_in_tx
import_in_tx-Imported s actor workspace_id input now w items h = elim (Bool-cases (is_nil input)) [
  | inl empty_input ↦ absurd (ground arith)
  | inr given ↦
      let permitted = permit actor workspace_id workspace_update w in
      elim (Result-cases permitted.0) [
        | inr (e, failed) ↦ absurd (ground arith)
        | inl (u, granted) ↦
            let counted = count_items workspace_id permitted.1 in
            elim (Result-cases counted.0) [
              | inr (e, failed) ↦ absurd (ground arith)
              | inl (n, known) ↦ elim (Bool-cases (leb (n + length input) s.max_items)) [
                | inr full ↦ absurd (ground arith)
                | inl room ↦
                    let (stored, added) =
                      import_items-ok actor workspace_id now input counted.1 {items = items}
                        (ground arith) in
                    let (size, own) = length-Imported actor workspace_id now input items stored in
                    let (total, same) = count_items-ok workspace_id permitted.1 {n = n} known in
                    let kept = permit-db actor workspace_id workspace_update w in
                    (
                      given,
                      stored,
                      ground (arith, added, same, kept),
                      ground (
                        arith,
                        count-join (in_workspace workspace_id) w.db.items items,
                        own,
                        total,
                        kept,
                      ),
                    )
              ]
            ]
      ]
]
