-- ===== src/Store/Moderation/Runs.antt =====
-- The ends of the moderation calls of crates/store-sqlite/src/lib.rs, as cases of a run.
use notespace.Base.{
  ℕ, Bool, true, false, List, [], ◌∷◌, map, Option, none, some, Result, ok, err, if◌then◌else◌, ◌≡◌,
  refl, sym, subst, arith, not, any,
}
use notespace.Model.{PublicId, PostState, Timestamp}
use notespace.Float.{Float}
use notespace.Store.{
  World, M, StoreError, not_found, PostRow, ThreadRow, NewAction, SignalRow, outage, resume, bind,
  handle, spend,
}
use notespace.Store.Runs.{bind-cases, handle-cases}
use notespace.Moderation.{AgreementStats, Resolution}
use notespace.Store.Queries.{agreement}
use notespace.Store.Moderation.{
  ReviewPost, NewReview, find, find_post, update_posts, or_not_found, joined, post_for_review,
  set_state, set_post_state, log_action, open_review, upsert, ReviewItem, ReportTally, same_signal,
  count_signals, insert_signal, add_report, resolve, resolved_row, review_by_id, resolve_review,
}

module _ {F : Float} {B : Type 0} (P : Result StoreError B × World F → Type 0) where
  found-cases :
      {A : Type 0} (k : A → M F B) (o : Option A) (w : World F)
      → P (err not_found, w)
      → ((a : A) → o ≡ some a → P (k a w))
      → P (resume k (or_not_found o w))
  unfolding resume
  found-cases k none w p q = p
  found-cases k (some a) w p q = q a refl

  pub post_for_review-cases :
      (post : PublicId) (k : ReviewPost → M F B) (w : World F)
      → P (err outage, spend w)
      → P (err not_found, spend w)
      → ((rp : ReviewPost) → joined w post ≡ some rp → P (k rp (spend w)))
      → P (bind (post_for_review post) k w)
  unfolding post_for_review joined
  post_for_review-cases post k w p q r =
      bind-cases P _ k w p (found-cases k (joined (spend w) post) (spend w) q r)

  handled-cases :
      {A : Type 0} (k : Result StoreError A → M F B) (o : Option A) (w : World F)
      → P (k (err not_found) w)
      → ((a : A) → o ≡ some a → P (k (ok a) w))
      → let r = or_not_found o w in P (k r.0 r.1)
  handled-cases k none w p q = p
  handled-cases k (some a) w p q = q a refl

  pub post_for_review-handled :
      (post : PublicId) (k : Result StoreError ReviewPost → M F B) (w : World F)
      → P (k (err outage) (spend w))
      → P (k (err not_found) (spend w))
      → ((rp : ReviewPost) → joined w post ≡ some rp → P (k (ok rp) (spend w)))
      → P (handle (post_for_review post) k w)
  unfolding post_for_review joined
  post_for_review-handled post k w p q r =
      handle-cases P _ k w p (handled-cases k (joined (spend w) post) (spend w) q r)

  pub post_for_review-found :
      (post : PublicId) (k : ReviewPost → M F B) (w : World F) (rp : ReviewPost)
      → joined w post ≡ some rp
      → P (err outage, spend w)
      → P (k rp (spend w))
      → P (bind (post_for_review post) k w)
  unfolding post_for_review joined resume
  post_for_review-found post k w rp found p q =
      bind-cases P _ k w p (subst (λ o. P (resume k (or_not_found o (spend w)))) (sym found) q)

  set_state-cases :
      (post : PublicId) (state : PostState) (k : Unit {0} → M F B) (o : Option PostRow)
      (w : World F)
      → P (err not_found, w)
      → ((threads : List ThreadRow)
          → P (k tt (record w { posts = update_posts w.posts post state; threads = threads })))
      → P (resume k (set_state post state o w))
  unfolding resume set_state
  set_state-cases post state k none w p q = p
  set_state-cases post state k (some r) w p q = q _

  pub set_post_state-cases :
      (post : PublicId) (state : PostState) (k : Unit {0} → M F B) (w : World F)
      → P (err outage, spend w)
      → P (err not_found, spend w)
      → ((threads : List ThreadRow)
          → P (
              k tt
                (record (spend w) { posts = update_posts w.posts post state; threads = threads })))
      → P (bind (set_post_state post state) k w)
  unfolding set_post_state
  set_post_state-cases post state k w p q r =
      bind-cases P _ k w p (set_state-cases post state k (find_post w.posts post) (spend w) q r)

  pub log_action-cases :
      (a : NewAction F) (k : ℕ → M F B) (w : World F)
      → P (err outage, spend w)
      → ((n : ℕ) → P (k n (record (spend w) { log = a ∷ w.log })))
      → P (bind (log_action a) k w)
  unfolding log_action resume
  log_action-cases a k w p q = bind-cases P _ k w p (q _)

  pub open_review-cases :
      (r : NewReview F) (k : Unit {0} → M F B) (w : World F)
      → P (err outage, spend w)
      → ((n : ℕ) → P (k tt (record (spend w) { reviews = upsert n r w.reviews })))
      → P (bind (open_review r) k w)
  unfolding open_review resume
  open_review-cases r k w p q = bind-cases P _ k w p (q _)

  pub agreement-cases :
      (space : ℕ) (k : AgreementStats → M F B) (w : World F)
      → P (err outage, spend w)
      → ((stats : AgreementStats) → P (k stats (spend w)))
      → P (bind (agreement space) k w)
  unfolding agreement resume
  agreement-cases space k w p q = bind-cases P _ k w p (q _)

  signal-cases :
      (s : SignalRow) (k : ReportTally → M F B) (w : World F) (known : Bool)
      → (known ≡ true
          → P (k (record { added = false; count = count_signals s.post_id w.signals }) w))
      → (known ≡ false
          → P (
              k
                (record { added = true; count = count_signals s.post_id (s ∷ w.signals) })
                (record w { signals = s ∷ w.signals })))
      → let w' = insert_signal s known w in
        P (k (record { added = not known; count = count_signals s.post_id w'.signals }) w')
  unfolding insert_signal
  signal-cases s k w true p q = p refl
  signal-cases s k w false p q = q refl

  pub add_report-cases :
      (s : SignalRow) (k : ReportTally → M F B) (w : World F)
      → P (err outage, spend w)
      → (any (same_signal s.post_id s.user_id) w.signals ≡ true
          → P (k (record { added = false; count = count_signals s.post_id w.signals }) (spend w)))
      → (any (same_signal s.post_id s.user_id) w.signals ≡ false
          → P (
              k
                (record { added = true; count = count_signals s.post_id (s ∷ w.signals) })
                (record (spend w) { signals = s ∷ w.signals })))
      → P (bind (add_report s) k w)
  unfolding add_report resume
  add_report-cases s k w p q r = bind-cases P _ k w p (signal-cases s k (spend w) _ q r)

  resolve-cases :
      (id : ℕ) (resolution : Resolution) (by : ℕ) (now : Timestamp)
      (k : Option (ReviewItem F) → M F B) (w : World F) (o : Option (ReviewItem F))
      → P (k none w)
      → ((item : ReviewItem F)
          → o ≡ some item
          → item.resolved ≡ false
          → P (
              k
                (some item)
                (record w { reviews = map (resolved_row id resolution by now) w.reviews })))
      → P (resume k (resolve id resolution by now o w))
  unfolding resolve resume
  resolve-cases id resolution by now k w none p q = p
  resolve-cases id resolution by now k w (some item) p q = resolved-cases item.resolved refl
    where
      resolved-cases :
          (b : Bool)
          → item.resolved ≡ b
          → P (
              resume k (
                if b then (ok none, w) else (
                  ok (some item),
                  record w { reviews = map (resolved_row id resolution by now) w.reviews },
                )))
      resolved-cases true e = p
      resolved-cases false e = q item refl e

  pub resolve_review-cases :
      (id : ℕ) (resolution : Resolution) (by : ℕ) (now : Timestamp)
      (k : Option (ReviewItem F) → M F B) (w : World F)
      → P (err outage, spend w)
      → P (k none (spend w))
      → ((item : ReviewItem F)
          → review_by_id w id ≡ some item
          → item.resolved ≡ false
          → P (
              k
                (some item)
                (record (spend w) { reviews = map (resolved_row id resolution by now) w.reviews })))
      → P (bind (resolve_review id resolution by now) k w)
  unfolding resolve_review review_by_id
  resolve_review-cases id resolution by now k w p q r =
      bind-cases P _ k w p
        (resolve-cases id resolution by now k (spend w) (review_by_id (spend w) id) q r)

-- The joined row is about the row of the post.
pub joined-find_post :
    {F : Float} (w : World F) (post : PublicId) (rp : ReviewPost) (p : PostRow)
    → joined w post ≡ some rp
    → find_post w.posts post ≡ some p
    → (rp.state ≡ p.state) × (rp.id ≡ p.id)
unfolding joined
joined-find_post w post rp p j f = ground arith

pub find_post-updated :
    (posts : List PostRow) (post : PublicId) (state : PostState) (p : PostRow)
    → find_post (update_posts posts post state) post ≡ some p
    → p.state ≡ state
unfolding find_post update_posts find
find_post-updated [] post state p h = cc
find_post-updated (r ∷ posts) post state p h = ground (arith, find_post-updated posts post state p)
