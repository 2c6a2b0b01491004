-- ===== src/Edit/Deletion.antt =====
-- What `delete` of crates/core/src/edit.rs leaves behind, and who may do it.
use notespace.Base.{true, not, some, Result, ok, ◌≡◌, refl, ◌⊎◌, inl, inr, arith}
use notespace.Model.{PublicId, Timestamp, PostState, User, post_state_eq}
use notespace.Float.{Float}
use notespace.Store.{StoreError, World, PostRow, spend}
use notespace.Store.Runs.{if-cases}
use notespace.Store.Moderation.{ReviewPost, find_post, joined, update_posts}
use notespace.Store.Moderation.Runs.{
  post_for_review-handled, set_post_state-cases, log_action-cases, joined-find_post,
  find_post-updated,
}
use notespace.Edit.{DeleteOutcome, deleted, may_delete, delete}

module _ {F : Float} (post : PublicId) (user : User) (now : Timestamp) where
  -- The step leaves the posts alone, or the user may delete the post, and its state
  -- is all that changed.
  abbrev pub Deletes : World F → World F → Type 0
  Deletes w w' =
      (w'.posts ≡ w.posts)
      ⊎ ((rp : ReviewPost) × (joined w post ≡ some rp)
          × (may_delete user rp.author_id ≡ true)
          × (w'.posts ≡ update_posts w.posts post PostState.deleted))

  -- Whichever calls of the store fail, `delete` leaves every post alone, or marks the one post
  -- deleted, whose author or a moderator the user is.
  pub delete-Deletes : (w : World F) → Deletes w (delete post user now w).1
  unfolding delete
  delete-Deletes w =
      let P = λ (r : Result StoreError DeleteOutcome × World F). Deletes w r.1 in
      post_for_review-handled P post _ w (inl refl) (inl refl) (λ rp found.
        if-cases P (not (may_delete user rp.author_id)) _ _ (spend w) (λ e. inl refl)
          (λ may.
            if-cases P (post_state_eq rp.state PostState.deleted) _ _ (spend w) (λ e. inl refl)
              (λ e. set_post_state-cases P post _ _ (spend w) (inl refl) (inl refl) (λ threads.
                log_action-cases P _ _ _ (inr (rp, found, ground arith, refl))
                  (λ n. inr (rp, found, ground arith, refl))))))

  abbrev Ends : World F → Result StoreError DeleteOutcome × World F → Type 0
  Ends w (result, w') =
      (q : PostRow)
      → result ≡ ok deleted
      → find_post w'.posts post ≡ some q
      → q.state ≡ PostState.deleted

  delete-Ends : (w : World F) → Ends w (delete post user now w)
  unfolding delete
  delete-Ends w =
      let P = λ (r : Result StoreError DeleteOutcome × World F). Ends w r in
      post_for_review-handled P post _ w (λ q h. cc) (λ q h. cc)
        (λ rp found.
          if-cases P (not (may_delete user rp.author_id)) _ _ (spend w) (λ e q h. cc)
            (λ may.
              if-cases P (post_state_eq rp.state PostState.deleted) _ _ (spend w)
                (λ e q h f. ground (arith, joined-find_post w post rp q found f))
                (λ e.
                  set_post_state-cases P post _ _ (spend w) (λ q h. cc) (λ q h. cc)
                    (λ threads.
                      log_action-cases P _ _ _ (λ q h. cc)
                        (λ n q h f. find_post-updated w.posts post PostState.deleted q f)))))

  -- After a deletion that succeeded, the post is in the state deleted.
  pub delete-deleted :
      (w : World F) (q : PostRow)
      → (delete post user now w).0 ≡ ok deleted
      → find_post (delete post user now w).1.posts post ≡ some q
      → q.state ≡ PostState.deleted
  delete-deleted w q = delete-Ends w q
