-- ===== src/Store/Moderation/Closed.antt =====
-- Reviews that are decided: `RESOLVE_REVIEW` of crates/core/src/sql.rs writes only open rows.
use notespace.Base.{
  ℕ, true, false, List, [], ◌∷◌, map, some, ◌≡◌, arith, ◌==◌, Option-cases, Bool-cases, inl, inr,
  refl,
}
use notespace.Model.{Timestamp}
use notespace.Float.{Float}
use notespace.Moderation.{Resolution}
use notespace.Store.{World, ReviewRow}
use notespace.Store.Moderation.{ReviewItem, find, review_by_id, resolved_row}

module _ {F : Float} where
  -- The review, where it exists, is decided.
  abbrev pub IsClosed : ℕ → List (ReviewRow F) → Type 0
  IsClosed id rows = (r : ReviewRow F) → find (λ r. r.id == id) rows ≡ some r → r.is_open ≡ false

  pub resolved_row-IsClosed :
      (id : ℕ) (resolution : Resolution) (by : ℕ) (now : Timestamp) (rows : List (ReviewRow F))
      → IsClosed id (map (resolved_row id resolution by now) rows)
  unfolding find resolved_row
  resolved_row-IsClosed id resolution by now [] r h = cc
  resolved_row-IsClosed id resolution by now (row ∷ rows) r h =
      ground (arith, resolved_row-IsClosed id resolution by now rows r)

  -- A ruling on any review leaves a decided one decided.
  pub resolved_row_keeps :
      (id other : ℕ) (resolution : Resolution) (by : ℕ) (now : Timestamp)
      (rows : List (ReviewRow F))
      → IsClosed id rows
      → IsClosed id (map (resolved_row other resolution by now) rows)
  unfolding find resolved_row
  resolved_row_keeps id other resolution by now [] closed r h = cc
  resolved_row_keeps id other resolution by now (row ∷ rows) closed r h =
      elim (Bool-cases (row.id == id)) [
        | inl same ↦ let was = closed row (rw same refl) in ground arith
        | inr apart ↦
            let tail : IsClosed id rows = λ q g. closed q (rw apart g) in
            ground (arith, resolved_row_keeps id other resolution by now rows tail r)
      ]

  pub IsClosed-item :
      (w : World F) (id : ℕ) (item : ReviewItem F)
      → IsClosed id w.reviews
      → review_by_id w id ≡ some item
      → item.resolved ≡ true
  unfolding review_by_id
  IsClosed-item w id item closed h = elim (Option-cases (find (λ r. r.id == id) w.reviews)) [
    | inl e ↦ ground (arith, e)
    | inr (r, e) ↦ ground (arith, e, closed r e)
  ]
