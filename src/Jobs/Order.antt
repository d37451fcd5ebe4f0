-- ===== src/Jobs/Order.antt =====
-- `claim` leases the due job that comes first.
use dynamis_code_apps_templa.Prelude.{
  lex, ℕ, ◌≡◌, refl, Bool, true, false, ◌⊎◌, inl, inr, Option, none, some, List, [], ◌∷◌, arith,
  All, All-map, In, text_leb_total, text_leb_trans, Bool-cases, subst,
}
use dynamis_code_apps_templa.Clock.{Stamp, stamp_leb}
use dynamis_code_apps_templa.Schema.{JobRow}
use dynamis_code_apps_templa.Jobs.Table.{due, row_leb, smaller, first_due}

stamp_leb_total : (a b : Stamp) → (stamp_leb a b ≡ true) ⊎ (stamp_leb b a ≡ true)
unfolding stamp_leb
stamp_leb_total a b = ground (arith, text_leb_total a.frac b.frac)

stamp_leb_trans :
    (a b c : Stamp) → stamp_leb a b ≡ true → stamp_leb b c ≡ true → stamp_leb a c ≡ true
unfolding stamp_leb
stamp_leb_trans a b c h k = ground (arith, text_leb_trans a.frac b.frac c.frac)

lex_trans :
    (a b c : Stamp) (p q r : Bool)
    → (p ≡ true → q ≡ true → r ≡ true)
    → lex (stamp_leb a b) (stamp_leb b a) p ≡ true
    → lex (stamp_leb b c) (stamp_leb c b) q ≡ true
    → lex (stamp_leb a c) (stamp_leb c a) r ≡ true
lex_trans a b c p q r f h k = ground (
  arith,
  stamp_leb_total a b,
  stamp_leb_total b c,
  stamp_leb_trans a b c,
  stamp_leb_trans c a b,
  stamp_leb_trans b c a,
  f,
)

lex_total :
    (a b : Stamp) (p q : Bool)
    → (p ≡ true) ⊎ (q ≡ true)
    → (lex (stamp_leb a b) (stamp_leb b a) p ≡ true)
      ⊎ (lex (stamp_leb b a) (stamp_leb a b) q ≡ true)
lex_total a b p q h = ground (arith, stamp_leb_total a b)

pub row_leb_trans : (r s t : JobRow) → row_leb r s ≡ true → row_leb s t ≡ true → row_leb r t ≡ true
unfolding row_leb
row_leb_trans r s t =
    lex_trans r.available_at s.available_at t.available_at _ _ _
      (lex_trans r.created_at s.created_at t.created_at _ _ _ (text_leb_trans r.id s.id t.id))

pub row_leb_total : (r s : JobRow) → (row_leb r s ≡ true) ⊎ (row_leb s r ≡ true)
unfolding row_leb
row_leb_total r s =
    lex_total r.available_at s.available_at _ _
      (lex_total r.created_at s.created_at _ _ (text_leb_total r.id s.id))

-- No due row of the table stands before `c`.
abbrev pub IsFirst : ℕ → JobRow → List JobRow → Type 0
IsFirst now c rows = All (λ r. due now r ≡ true → row_leb c r ≡ true) rows

pub first_due-none :
    (now : ℕ) (rows : List JobRow) → first_due now rows ≡ none → All (λ r. due now r ≡ false) rows
unfolding first_due
first_due-none now [] h = tt
first_due-none now (r ∷ rs) h = elim (Bool-cases (due now r)) [
  | inl is_due ↦ let e : some (smaller r (first_due now rs)) ≡ none = rw is_due at h in cc e
  | inr not_due ↦ (not_due, first_due-none now rs (rw not_due at h))
]

-- The row that a claim takes: it is due, stands in the table, and no due row stands before it.
pub record IsClaimable (now : ℕ) (c : JobRow) (rows : List JobRow) : Type 0 where
  pub is_due : due now c ≡ true
  pub stored : In c rows
  pub first : IsFirst now c rows

row_leb_refl : (r : JobRow) → row_leb r r ≡ true
row_leb_refl r = elim (row_leb_total r r) [ inl h ↦ h | inr h ↦ h ]

front :
    (now : ℕ) (r : JobRow) (rs : List JobRow)
    → due now r ≡ true
    → IsFirst now r rs
    → IsClaimable now r (r ∷ rs)
front now r rs h f = record { is_due = h; stored = inl refl; first = ((λ _. row_leb_refl r), f) }

further :
    (now : ℕ) (r d : JobRow) (rs : List JobRow)
    → (due now r ≡ true → row_leb d r ≡ true)
    → IsClaimable now d rs
    → IsClaimable now d (r ∷ rs)
further now r d rs h k = record { is_due = k.is_due; stored = inr k.stored; first = (h, k.first) }

smaller-IsClaimable :
    (now : ℕ) (r c : JobRow) (rs : List JobRow) (best : Option JobRow)
    → first_due now rs ≡ best
    → ((d : JobRow) → best ≡ some d → IsClaimable now d rs)
    → due now r ≡ true
    → smaller r best ≡ c
    → IsClaimable now c (r ∷ rs)
smaller-IsClaimable now r c rs none e ih h m =
    subst (λ x. IsClaimable now x (r ∷ rs)) m
      (front now r rs h (All-map _ _ rs (λ x no due_x. cc (no, due_x)) (first_due-none now rs e)))
smaller-IsClaimable now r c rs (some d) e ih h m = elim (Bool-cases (row_leb r d)) [
  | inl before ↦
      subst (λ x. IsClaimable now x (r ∷ rs)) (rw before at m)
        (front now r rs h
          (All-map _ _ rs (λ x f due_x. row_leb_trans r d x before (f due_x)) (ih d refl).first))
  | inr behind ↦
      subst (λ x. IsClaimable now x (r ∷ rs)) (rw behind at m)
        (further now r d rs (λ _. ground (arith, row_leb_total r d)) (ih d refl))
]

pub first_due-IsClaimable :
    (now : ℕ) (rows : List JobRow) (c : JobRow)
    → first_due now rows ≡ some c
    → IsClaimable now c rows
unfolding first_due
first_due-IsClaimable now [] c h = cc
first_due-IsClaimable now (r ∷ rs) c h = elim (Bool-cases (due now r)) [
  | inl is_due ↦
      let chosen : some (smaller r (first_due now rs)) ≡ some c = rw is_due at h in
      smaller-IsClaimable now r c rs (first_due now rs) refl
        (λ d e. first_due-IsClaimable now rs d e) is_due (cc chosen)
  | inr not_due ↦
      further now r c rs (λ e. cc (not_due, e)) (first_due-IsClaimable now rs c (rw not_due at h))
]
