-- ===== src/Store/Moderation/Footprint.antt =====
-- The footprints of the moderation calls of crates/store-sqlite/src/lib.rs.
use notespace.Base.{ℕ, Bool, true, false, [], ◌∷◌, map, Option, none, some, ◌≡◌, refl, ap}
use notespace.Model.{PublicId, PostState, Timestamp}
use notespace.Float.{Float}
use notespace.Moderation.{Resolution}
use notespace.Store.{PostRow, NewAction, SignalRow, World}
use notespace.Store.Moderation.{
  NewReview, ReviewItem, find_post, or_not_found, post_for_review, joined, set_post_state,
  set_state, log_action, open_review, resolve_review, resolve, review_by_id, add_report,
  insert_signal,
}
use notespace.Store.Queries.{agreement}
use notespace.Store.Footprint.{
  mask, Keeps, Footprint, Footprint-refl, if-Footprint, transaction-Keeps, masked-update,
}

module _ {F : Float} (post : PublicId) where
  -- A call that changes none of the four tables.
  pub untouched :
      {w w' : World F}
      → w'.posts ≡ w.posts
      → w'.log ≡ w.log
      → w'.spaces ≡ w.spaces
      → w'.users ≡ w.users
      → Footprint post w w'
  untouched p l s u = record {
    log_grows = ([], l);
    masked = ap (map (mask post)) p;
    spaces = s;
    users = u;
  }

  or_not_found-Keeps : {A : Type 0} (o : Option A) → Keeps {F = F} post (or_not_found o)
  or_not_found-Keeps none w = Footprint-refl post w
  or_not_found-Keeps (some a) w = Footprint-refl post w

  pub post_for_review-Keeps : (q : PublicId) → Keeps {F = F} post (post_for_review q)
  unfolding post_for_review
  post_for_review-Keeps q = transaction-Keeps post _ (λ w. or_not_found-Keeps (joined w q) w)

  set_state-Keeps :
      (state : PostState) (found : Option PostRow) → Keeps {F = F} post (set_state post state found)
  unfolding set_state
  set_state-Keeps state none w = Footprint-refl post w
  set_state-Keeps state (some p) w = record {
    log_grows = ([], refl);
    masked = masked-update w.posts post state;
    spaces = refl;
    users = refl;
  }

  pub set_post_state-Keeps : (state : PostState) → Keeps {F = F} post (set_post_state post state)
  unfolding set_post_state
  set_post_state-Keeps state =
      transaction-Keeps post _ (λ w. set_state-Keeps state (find_post w.posts post) w)

  pub log_action-Keeps : (a : NewAction F) → Keeps post (log_action a)
  unfolding log_action
  log_action-Keeps a =
      transaction-Keeps post _
        (λ w. record { log_grows = (a ∷ [], refl); masked = refl; spaces = refl; users = refl })

  pub open_review-Keeps : (r : NewReview F) → Keeps post (open_review r)
  unfolding open_review
  open_review-Keeps r = transaction-Keeps post _ (λ w. untouched refl refl refl refl)

  pub agreement-Keeps : (space : ℕ) → Keeps {F = F} post (agreement space)
  unfolding agreement
  agreement-Keeps space = transaction-Keeps post _ (λ w. Footprint-refl post w)

  resolve-Keeps :
      (id : ℕ) (resolution : Resolution) (by : ℕ) (now : Timestamp) (item : Option (ReviewItem F))
      → Keeps post (resolve id resolution by now item)
  unfolding resolve
  resolve-Keeps id resolution by now none w = Footprint-refl post w
  resolve-Keeps id resolution by now (some item) w =
      if-Footprint post w item.resolved _ _ (Footprint-refl post w) (untouched refl refl refl refl)

  pub resolve_review-Keeps :
      (id : ℕ) (resolution : Resolution) (by : ℕ) (now : Timestamp)
      → Keeps {F = F} post (resolve_review id resolution by now)
  unfolding resolve_review
  resolve_review-Keeps id resolution by now =
      transaction-Keeps post _ (λ w. resolve-Keeps id resolution by now (review_by_id w id) w)

  insert_signal-Footprint :
      (s : SignalRow) (known : Bool) (w : World F) → Footprint post w (insert_signal s known w)
  unfolding insert_signal
  insert_signal-Footprint s true w = Footprint-refl post w
  insert_signal-Footprint s false w = untouched refl refl refl refl

  pub add_report-Keeps : (s : SignalRow) → Keeps {F = F} post (add_report s)
  unfolding add_report
  add_report-Keeps s = transaction-Keeps post _ (λ w. insert_signal-Footprint s _ w)
