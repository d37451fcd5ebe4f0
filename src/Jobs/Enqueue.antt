-- ===== src/Jobs/Enqueue.antt =====
-- Enqueueing is idempotent for each deduplication key.
use dynamis_code_apps_templa.Prelude.{
  ◌≡◌, refl, ap, Bool, true, inl, inr, List, [], ◌∷◌, ◌++◌, Text, arith, any, Bool-cases, has_key,
  Triple, triple_key, triple_eq_iff,
}
use dynamis_code_apps_templa.Schema.{JobRow}
use dynamis_code_apps_templa.Jobs.Table.{
  NewJob, enqueue_rows, is_duplicate, dedup_key, new_key, new_row,
}

any-append_last :
    (p : JobRow → Bool) (rows : List JobRow) (r : JobRow)
    → p r ≡ true
    → any p (rows ++ r ∷ []) ≡ true
any-append_last p [] r h = rw h
any-append_last p (x ∷ xs) r h = ground (arith, any-append_last p xs r)

any_same :
    (a b : NewJob) (rows : List JobRow)
    → new_key a ≡ new_key b
    → any (is_duplicate a) rows ≡ any (is_duplicate b) rows
unfolding is_duplicate
any_same a b rows e = ap (λ (k : Triple). any (has_key dedup_key k) rows) e

own_duplicate : (id : Text) (new : NewJob) → is_duplicate new (new_row id new) ≡ true
unfolding is_duplicate
own_duplicate id new = (triple_eq_iff (new_key new) (new_key new)).1 refl

-- A second job with the workspace, kind and deduplication key of one just enqueued is not added, be its
-- payload, its time and its id what they may.
pub enqueue_once :
    (id id' : Text) (new again : NewJob) (rows : List JobRow)
    → new_key again ≡ new_key new
    → enqueue_rows id' again (enqueue_rows id new rows) ≡ enqueue_rows id new rows
unfolding enqueue_rows
enqueue_once id id' new again rows e = elim (Bool-cases (any (is_duplicate new) rows)) [
  | inl known ↦ rw (known, any_same again new rows e, known) refl
  | inr unknown ↦
      rw
        (
          unknown,
          any_same again new (rows ++ new_row id new ∷ []) e,
          any-append_last (is_duplicate new) rows (new_row id new) (own_duplicate id new),
        )
        refl
]
