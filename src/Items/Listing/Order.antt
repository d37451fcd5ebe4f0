-- ===== src/Items/Listing/Order.antt =====
-- internal/items/service.go: the order of the rows of `List`, and what a cursor's comparison asks for.
use dynamis_code_apps_templa.Prelude.{
  ◌==◌, ◌&&◌, ◌≡◌, ℕ, true, false, not, ◌⊎◌, List, [], ◌∷◌, Text, All, arith, text_leb_total,
  text_leb_trans, text_leb_antisym, text_leb_refl, text_eq, text_eq_iff, UniqueBy, text_key, any,
  has_key,
}
use dynamis_code_apps_templa.Prelude.Sort.{Distinct}
use dynamis_code_apps_templa.Clock.{Stamp, timestamp, stamp_leb}
use dynamis_code_apps_templa.Clock.Order.{stamp_leb-timestamp}
use dynamis_code_apps_templa.Schema.{Item}
use dynamis_code_apps_templa.Items.Listing.{item_leb, in_order, beyond, stamp_eq, Cursor}

item_leb_total : (a b : Item) → (item_leb a b ≡ true) ⊎ (item_leb b a ≡ true)
unfolding item_leb
item_leb_total a b = ground (arith, text_leb_total a.id b.id)

item_leb_trans : (a b c : Item) → item_leb a b ≡ true → item_leb b c ≡ true → item_leb a c ≡ true
unfolding item_leb
item_leb_trans a b c h k = ground (arith, text_leb_trans a.id b.id c.id)

pub in_order_total :
    (order : Text) (a b : Item) → (in_order order a b ≡ true) ⊎ (in_order order b a ≡ true)
unfolding in_order
in_order_total order a b = ground (arith, item_leb_total a b, item_leb_total b a)

pub in_order_trans :
    (order : Text) (a b c : Item)
    → in_order order a b ≡ true
    → in_order order b c ≡ true
    → in_order order a c ≡ true
unfolding in_order
in_order_trans order a b c h k = ground (arith, item_leb_trans a b c, item_leb_trans c b a)

-- Items that stand before each other have one id.
in_order-antisym :
    (order : Text) (a b : Item)
    → text_eq b.id a.id ≡ false
    → (in_order order a b && in_order order b a) ≡ false
unfolding in_order item_leb
in_order-antisym order a b other = ground (arith, text_leb_antisym a.id b.id, text_eq_iff b.id a.id)

distinct_from :
    (order : Text) (a : Item) (items : List Item)
    → any (has_key (λ (i : Item). i.id) a.id) items ≡ false
    → All (λ b. (in_order order a b && in_order order b a) ≡ false) items
distinct_from order a [] h = tt
distinct_from order a (b ∷ items) h =
    (in_order-antisym order a b (ground arith), distinct_from order a items (ground arith))

pub items-Distinct :
    (order : Text) (items : List Item)
    → UniqueBy (λ i. i.id) items
    → Distinct (in_order order) items
items-Distinct order [] u = tt
items-Distinct order (a ∷ items) u =
    (distinct_from order a items u.0, items-Distinct order items u.1)

stamp_eq-leb : (a b : Stamp) → stamp_eq a b ≡ (stamp_leb a b && stamp_leb b a)
unfolding stamp_leb
stamp_eq-leb a b =
    ground (arith, text_leb_antisym a.frac b.frac, text_leb_refl a.frac, text_eq_iff a.frac b.frac)

stamp_eq-timestamp : (a b : ℕ) → stamp_eq (timestamp a) (timestamp b) ≡ (a == b)
stamp_eq-timestamp a b =
    rw (stamp_eq-leb (timestamp a) (timestamp b), stamp_leb-timestamp a b, stamp_leb-timestamp b a)
      (ground arith)

-- The comparison with an item's cursor passes exactly what stands strictly behind the item.
pub beyond-in_order :
    (order : Text) (p : Cursor) (c i : Item)
    → p.created_at ≡ timestamp c.created_at
    → p.id ≡ c.id
    → beyond order p i ≡ not (in_order order i c)
unfolding beyond in_order item_leb
beyond-in_order order p c i time same =
    rw
      (
        time,
        same,
        stamp_eq-timestamp i.created_at c.created_at,
        stamp_leb-timestamp i.created_at c.created_at,
        stamp_leb-timestamp c.created_at i.created_at,
      )
      (ground (arith, text_leb_total c.id i.id, text_leb_total i.id c.id))
