-- ===== src/Pipeline/People/Rulings.antt =====
-- `review` and `appeal` of crates/core/src/moderation/pipeline.rs: who may decide, and how often.
use notespace.Base.{
  ℕ, Bool, true, false, not, Option, some, Result, ok, ◌≡◌, refl, ◌⊎◌, inl, inr, arith, subst, sym,
}
use notespace.Model.{PublicId, Timestamp, PostState, User, can_moderate}
use notespace.Float.{Float}
use notespace.Moderation.{Resolution}
use notespace.Store.{StoreError, World}
use notespace.Store.Runs.{if-cases}
use notespace.Store.Moderation.{ReviewItem, review_by_id}
use notespace.Store.Moderation.Closed.{
  IsClosed, resolved_row-IsClosed, resolved_row_keeps, IsClosed-item,
}
use notespace.Store.Moderation.Runs.{resolve_review-cases, set_post_state-cases, log_action-cases}
use notespace.Pipeline.{ReviewOutcome, resolved}
use notespace.Pipeline.People.{review, rule_on}

module _ {F : Float} where
  -- The step changes no post, no row of the log and no review.
  abbrev pub Unmoved : World F → World F → Type 0
  Unmoved w w' = (w'.posts ≡ w.posts) × (w'.log ≡ w.log) × (w'.reviews ≡ w.reviews)

  -- A ruling has no effect unless a moderator or an administrator makes it and the review was
  -- open until then, whichever calls of the store fail.
  pub review-Unmoved :
      (id : ℕ) (reviewer : User) (resolution : Resolution) (now : Timestamp) (w : World F)
      → Unmoved w (review id reviewer resolution now w).1
        ⊎ ((can_moderate reviewer.role ≡ true)
            × (item : ReviewItem F) × (review_by_id w id ≡ some item)
            × (item.resolved ≡ false))
  unfolding review rule_on
  review-Unmoved id reviewer resolution now w =
      let P = λ (r : Result StoreError ReviewOutcome × World F).
        Unmoved w r.1
        ⊎ ((can_moderate reviewer.role ≡ true)
            × (item : ReviewItem F) × (review_by_id w id ≡ some item)
            × (item.resolved ≡ false)) in
      if-cases P (not (can_moderate reviewer.role)) _ _ w (λ e. inl (refl, refl, refl))
        (λ e.
          resolve_review-cases P id resolution reviewer.id now _ w (inl (refl, refl, refl))
            (inl (refl, refl, refl))
            (λ item found undecided. inr (ground arith, item, found, undecided)))

  closed-Unmoved :
      (id : ℕ) (reviewer : User) (resolution : Resolution) (now : Timestamp) (w : World F)
      → IsClosed id w.reviews
      → Unmoved w (review id reviewer resolution now w).1
  closed-Unmoved id reviewer resolution now w closed =
      elim (review-Unmoved id reviewer resolution now w) [
        | inl u ↦ u
        | inr (may, item, found, undecided) ↦
            let settled = IsClosed-item w id item closed found in cc
      ]

  abbrev Rules : ℕ → Result StoreError ReviewOutcome × World F → Type 0
  Rules id (result, w) =
      (post : PublicId) (state : PostState) (agreed : Option Bool)
      → result ≡ ok (resolved post state agreed)
      → IsClosed id w.reviews

  review-IsClosed :
      (id : ℕ) (reviewer : User) (resolution : Resolution) (now : Timestamp) (w : World F)
      → Rules id (review id reviewer resolution now w)
  unfolding review rule_on
  review-IsClosed id reviewer resolution now w =
      let P = λ (r : Result StoreError ReviewOutcome × World F). Rules id r in
      if-cases P (not (can_moderate reviewer.role)) _ _ w (λ e p s a h. cc)
        (λ e.
          resolve_review-cases P id resolution reviewer.id now _ w (λ p s a h. cc) (λ p s a h. cc)
            (λ item found undecided.
              set_post_state-cases P item.post_public_id _ _ _ (λ p s a h. cc) (λ p s a h. cc)
                (λ threads.
                  log_action-cases P _ _ _ (λ p s a h. cc)
                    (λ n p s a h. resolved_row-IsClosed id resolution reviewer.id now w.reviews))))

  -- A ruling on any review leaves a decided one decided.
  review_keeps :
      (id other : ℕ) (reviewer : User) (resolution : Resolution) (now : Timestamp) (w : World F)
      → IsClosed id w.reviews
      → IsClosed id (review other reviewer resolution now w).1.reviews
  unfolding review rule_on
  review_keeps id other reviewer resolution now w closed =
      let P = λ (r : Result StoreError ReviewOutcome × World F). IsClosed id r.1.reviews in
      if-cases P (not (can_moderate reviewer.role)) _ _ w (λ e. closed)
        (λ e.
          resolve_review-cases P other resolution reviewer.id now _ w closed closed
            (λ item found undecided.
              let kept = resolved_row_keeps id other resolution reviewer.id now w.reviews closed in
              set_post_state-cases P item.post_public_id _ _ _ kept kept
                (λ threads. log_action-cases P _ _ _ kept (λ n. kept))))

  -- Any number of rulings, by anyone and on any review, and of other steps, as long as these leave
  -- the reviews alone: no appeal, report or verdict opens one.
  pub data Unopened (w : World F) : World F → Type 0 where
    here : Unopened w w
    ruled :
        {v : World F} (id : ℕ) (reviewer : User) (resolution : Resolution) (now : Timestamp)
        → Unopened w v
        → Unopened w (review id reviewer resolution now v).1
    besides : {v u : World F} → u.reviews ≡ v.reviews → Unopened w v → Unopened w u

  Unopened-IsClosed :
      (id : ℕ) {w v : World F} → Unopened w v → IsClosed id w.reviews → IsClosed id v.reviews
  Unopened-IsClosed id here closed = closed
  Unopened-IsClosed id (ruled {v} other reviewer resolution now steps) closed =
      review_keeps id other reviewer resolution now v (Unopened-IsClosed id steps closed)
  Unopened-IsClosed id (besides same steps) closed =
      subst (IsClosed id) (sym same) (Unopened-IsClosed id steps closed)

  -- The first ruling stands until a review is opened again: once `review` has resolved an item,
  -- and after any number of further rulings and of steps that leave the reviews alone, a ruling on
  -- the item, by whomever, changes no post, no row of the log and no review.
  pub review-once :
      (id : ℕ) (first second : User) (one two : Resolution) (now later : Timestamp) (w : World F)
      {v : World F} (post : PublicId) (state : PostState) (agreed : Option Bool)
      → (review id first one now w).0 ≡ ok (resolved post state agreed)
      → Unopened (review id first one now w).1 v
      → Unmoved v (review id second two later v).1
  review-once id first second one two now later w {v} post state agreed h steps =
      closed-Unmoved id second two later v
        (Unopened-IsClosed id steps (review-IsClosed id first one now w post state agreed h))
