-- ===== src/Store/Queries/Due.antt =====
-- When the sweep's query of crates/core/src/sql.rs passes a post over.
use notespace.Base.{ℕ, true, false, List, [], ◌∷◌, ◌≡◌, refl, arith, ==→eq, ==_refl}
use notespace.Model.{Timestamp, PostState, post_state_eq}
use notespace.Float.{Float}
use notespace.Store.{World, PostRow, ReviewRow}
use notespace.Store.Moderation.{NewReview, upsert}
use notespace.Store.Queries.{is_due, awaits_human}

module _ {F : Float} where
  pub not_pending-not_due :
      (w : World F) (t : Timestamp) (p : PostRow)
      → post_state_eq p.state PostState.pending ≡ false
      → is_due w t p ≡ false
  unfolding is_due
  not_pending-not_due w t p h = rw h refl

  pub awaited-not_due :
      (w : World F) (t : Timestamp) (p : PostRow)
      → awaits_human w.reviews p ≡ true
      → is_due w t p ≡ false
  unfolding is_due
  awaited-not_due w t p h = ground arith

  -- The row that `open_review` writes is open.
  pub awaits_human-upsert :
      (n : ℕ) (r : NewReview F) (rows : List (ReviewRow F)) (p : PostRow)
      → r.post_id ≡ p.id
      → awaits_human (upsert n r rows) p ≡ true
  unfolding awaits_human upsert
  awaits_human-upsert n r [] p h = ground (arith, ==_refl p.id)
  awaits_human-upsert n r (old ∷ rows) p h =
      ground (arith, ==_refl p.id, ==→eq old.post_id r.post_id, awaits_human-upsert n r rows p h)
