-- ===== src/Items/Listing/Tests.antt =====
-- Two pages of a concrete workspace, with a concrete library.
use dynamis_code_apps_templa.Prelude.{
  ℕ, ◌+◌, ◌*◌, ◌≡◌, refl, ap, ◌∙◌, ◌≤◌, true, Option, none, some, List, [], ◌∷◌, ◌++◌, Text, ascii,
  length, length-append, take, drop, is_nil, arith, text_eq, text_eq→, text_leb, skip_space, ◌||◌,
  Bool-cases, inl, inr, trim_space,
}
use dynamis_code_apps_templa.Prelude.Int.{pos}
use dynamis_code_apps_templa.Clock.{Stamp, timestamp}
use dynamis_code_apps_templa.Clock.Digits.{digits}
use dynamis_code_apps_templa.Schema.{empty_database, Item}
use dynamis_code_apps_templa.Prelude.Sort.{sort}
use dynamis_code_apps_templa.Exec.{World, query, statement}
use dynamis_code_apps_templa.Identity.{
  Principal, permit, as_actor, authorize, authorize_principal, granted, is_member,
}
use dynamis_code_apps_templa.Identity.Policy.{
  permissions_for_role, role_permissions, contains, owner,
}
use dynamis_code_apps_templa.Items.Input.{
  validate_search, valid_cursor_id, valid_status, active, complete,
}
use dynamis_code_apps_templa.Items.Listing.{
  Cursor, Library, ListInput, ascending, descending, checked, in_order, item_leb, selects,
}
use dynamis_code_apps_templa.Items.Listing.Laws.{IsWritten, IsLibrary}
use dynamis_code_apps_templa.Items.Listing.Pages.{calm, walk, selected}
use dynamis_code_apps_templa.Items.Listing.Walk.{walk-selected}

-- A text behind its length.
abbrev field : Text → Text
field s = length s ∷ s

abbrev head : Text → ℕ
head [] = 0
head (n ∷ s) = n

abbrev tail : Text → Text
tail [] = []
tail (n ∷ s) = s

abbrev first : Text → Text
first s = take (head s) (tail s)

abbrev others : Text → Text
others s = drop (head s) (tail s)

first-field : (s rest : Text) → first (field s ++ rest) ≡ s
first-field s rest = go s
  where
    go : (s : Text) → take (length s) (s ++ rest) ≡ s
    go [] = refl
    go (b ∷ s) = ap (λ l. b ∷ l) (go s)

others-field : (s rest : Text) → others (field s ++ rest) ≡ rest
others-field s rest = go s
  where
    go : (s : Text) → drop (length s) (s ++ rest) ≡ rest
    go [] = refl
    go (b ∷ s) = go s

abbrev written : Cursor → Text
written c =
    c.created_at.sec ∷ field c.status
    ++ (field c.search ++ (field c.sort ++ (field c.created_at.frac ++ field c.id)))

abbrev read_at : ℕ → Text → Cursor
read_at sec s = record {
  status = first s;
  search = first (others s);
  sort = first (others (others s));
  created_at = record { sec = sec; frac = first (others (others (others s))) };
  id = tail (others (others (others (others s))));
}

abbrev read : Text → Option Cursor
read s = some (read_at (head s) (tail s))

abbrev unshift : Text → Option Text
unshift [] = none
unshift (b ∷ s) = some s

abbrev library : Library
library = record {
  marshal = λ c. some (written c);
  unmarshal = read;
  encode = λ raw. 0 ∷ raw;
  decode = unshift;
  like = λ title pattern. true;
}

read-written : (c : Cursor) → read (written c) ≡ some c
read-written c =
    let r3 = field c.created_at.frac ++ field c.id in
    let r2 = field c.sort ++ r3 in
    let r1 = field c.search ++ r2 in
    let r0 = field c.status ++ r1 in
    let e1 : others r0 ≡ r1 = others-field c.status r1 in
    let e2 : others (others r0) ≡ r2 = ap others e1 ∙ others-field c.search r2 in
    let e3 : others (others (others r0)) ≡ r3 = ap others e2 ∙ others-field c.sort r3 in
    let e4 : others (others (others (others r0))) ≡ field c.id =
      ap others e3 ∙ others-field c.created_at.frac (field c.id) in
    five (first-field c.status r1) (ap first e1 ∙ first-field c.search r2)
      (ap first e2 ∙ first-field c.sort r3)
      (ap first e3 ∙ first-field c.created_at.frac (field c.id)) (ap tail e4)
  where
    five :
        {a b d f i : Text}
        → a ≡ c.status
        → b ≡ c.search
        → d ≡ c.sort
        → f ≡ c.created_at.frac
        → i ≡ c.id
        → some (record {
          status = a;
          search = b;
          sort = d;
          created_at = record { sec = c.created_at.sec; frac = f };
          id = i;
        })
          ≡ some c
    five p q r s t = rw (p, q, r, s, t) refl

length-timestamp : (t : ℕ) → length (timestamp t).frac ≡ 11
unfolding timestamp digits
length-timestamp t = refl

short_status : (s : Text) → (is_nil s || valid_status s) ≡ true → length s ≤ 8
short_status [] h = omega arith
short_status (b ∷ s) h = elim (Bool-cases (text_eq (b ∷ s) active)) [
  | inl same ↦ omega (arith, ap length (text_eq→ (b ∷ s) active same))
  | inr other ↦ omega (arith, ap length (text_eq→ (b ∷ s) complete (rw other at h)))
]

short_sort : (s : Text) → (text_eq s ascending || text_eq s descending) ≡ true → length s ≤ 11
short_sort s h = elim (Bool-cases (text_eq s ascending)) [
  | inl same ↦ omega (arith, ap length (text_eq→ s ascending same))
  | inr other ↦ omega (arith, ap length (text_eq→ s descending (rw other at h)))
]

length-id : (s : Text) → valid_cursor_id s ≡ true → length s ≡ 32
unfolding valid_cursor_id
length-id s h = ground arith

length-written : (c : Cursor) → IsWritten c → length (written c) ≤ 139 + 6 * length c.search
length-written c h =
    let r3 = field c.created_at.frac ++ field c.id in
    let r2 = field c.sort ++ r3 in
    let r1 = field c.search ++ r2 in
    let (t, time) = h.time in
    omega (
      arith,
      length-append c.status r1,
      length-append c.search r2,
      length-append c.sort r3,
      length-append c.created_at.frac (field c.id),
      short_status c.status h.status,
      short_sort c.sort h.sort,
      ap (λ (s : Stamp). length s.frac) time,
      length-timestamp t,
      length-id c.id h.id,
    )

library-IsLibrary : IsLibrary library
library-IsLibrary = record {
  cursors = λ c h. (written c, refl, read-written c, omega arith, length-written c h);
  texts = λ raw h. (refl, refl);
}

abbrev alice : Principal
unfolding permissions_for_role role_permissions
alice = record {
  user_id = ascii "alice";
  workspace_id = ascii "w";
  role = owner;
  permissions = permissions_for_role owner;
  auth_method = ascii "session";
  token_id = [];
  auth_level = 1;
}

abbrev task : Text → Text → Text → ℕ → Item
task id workspace_id status at = record {
  id = id;
  workspace_id = workspace_id;
  created_by_user_id = none;
  title = ascii "Task";
  status = status;
  version = 1;
  created_at = at;
  updated_at = at;
}

abbrev id_a : Text
id_a = ascii "aaaaaaaaaaaaaaaaaaaaaaaaaaaaaaaa"

abbrev id_b : Text
id_b = ascii "bbbbbbbbbbbbbbbbbbbbbbbbbbbbbbbb"

abbrev id_c : Text
id_c = ascii "cccccccccccccccccccccccccccccccc"

abbrev id_d : Text
id_d = ascii "dddddddddddddddddddddddddddddddd"

abbrev tasks : List Item
tasks =
    task id_b (ascii "w") active 7
    ∷ task id_d (ascii "v") active 7
    ∷ task id_c (ascii "w") active 9
    ∷ task id_a (ascii "w") active 7
    ∷ []

abbrev world : World
world = record {
  db = record empty_database {
    members =
        record { workspace_id = ascii "w"; user_id = ascii "alice"; role = owner; created_at = 0 }
        ∷ [];
    items = tasks;
  };
  now = 7;
  faults = [];
  entropy = [];
}

abbrev asked : ListInput
asked = record { status = active; search = []; sort = descending; limit = pos 1; cursor = [] }

-- The newest item first, and of the two of one time the one with the greater id.
in_order_of_time :
    selected library (ascii "w") asked tasks
    ≡ task id_c (ascii "w") active 9
      ∷ task id_b (ascii "w") active 7
      ∷ task id_a (ascii "w") active 7
      ∷ []
unfolding in_order item_leb selects text_leb text_eq sort
in_order_of_time = refl

walk-selected_example :
    walk library alice (ascii "w") asked 5 (calm world)
    ≡ some (selected library (ascii "w") asked tasks)
unfolding checked validate_search trim_space skip_space permit as_actor authorize
    authorize_principal granted is_member text_eq query statement permissions_for_role
    role_permissions contains alice valid_cursor_id
walk-selected_example =
    walk-selected library alice (ascii "w") asked asked 1 world library-IsLibrary refl refl
      (omega arith) refl (refl, (refl, (refl, (refl, tt)))) (refl, (refl, (refl, (refl, tt))))
