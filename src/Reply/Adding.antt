-- ===== src/Reply/Adding.antt =====
-- The attempts of `post` of crates/core/src/reply.rs to insert a reply: the post that they may add,
-- and the answer.
use notespace.Base.{ℕ, List, [], ◌∷◌, Result, ok, err, ◌≡◌, ◌⊎◌, inl, inr, refl, ◌∙◌, subst}
use notespace.Model.{PublicId, PostState}
use notespace.Float.{Float}
use notespace.RateLimit.{Decision, next}
use notespace.Moderation.{Reason}
use notespace.Store.{World, M, StoreError, PostRow, ThreadRow, spend}
use notespace.Store.Writing.{NewPost, Post, AttemptKeys, new_post_row}
use notespace.Store.Writing.Runs.{insert_post-cases}
use notespace.Store.Writing.Placing.{Inserted, planned-Inserted}
use notespace.Reply.Calls.{record_next-cases, hold-cases}
use notespace.Reply.{
  Reply, Rejected, Outcome, posted, held, rejected, rate_limited, state_for, Environment, new_post,
  after_insert, attempt_ids, inserted,
}

-- The state that the reasons ask for, and the answer.
abbrev pub wanted_state : List Reason → PostState
wanted_state [] = PostState.visible
wanted_state (r ∷ rs) = PostState.pending

abbrev pub wanted_answer : List Reason → Post → Outcome
wanted_answer [] = posted
wanted_answer (r ∷ rs) = held

abbrev pub wanted_post : Reply → List Reason → PublicId → NewPost
wanted_post r reasons id = record {
  public_id = id;
  thread = r.thread;
  parent = r.parent;
  author_id = r.author;
  body_md = r.body_md;
  created_at = r.now;
  state = wanted_state reasons;
}

abbrev Failed : Result StoreError Outcome → Type 0
Failed result = (e : StoreError) × (result ≡ err e)

-- The answer says that nothing was posted.
abbrev pub Declines : Result StoreError Outcome → Type 0
Declines result =
    ((why : Rejected) × (result ≡ ok (rejected why)))
    ⊎ ((secs : ℕ) × (result ≡ ok (rate_limited secs)))
    ⊎ Failed result

-- The answer names the row, and says whether it is held.
abbrev pub Answers : List Reason → PostRow → Result StoreError Outcome → Type 0
Answers reasons row result =
    ((p : Post) × (p.id ≡ row.id) × (p.state ≡ row.state) × (result ≡ ok (wanted_answer reasons p)))
    ⊎ Failed result

module _ {F : Float} where
  -- No post more, or one, which is the reply in the state that its reasons ask for.
  abbrev pub Adds :
      Reply
      → List Reason
      → List ThreadRow
      → List PostRow
      → Result StoreError Outcome × World F
      → Type 0
  Adds r reasons threads posts t =
      ((t.1.posts ≡ posts) × Declines t.0)
      ⊎ ((id : PublicId) × (row : PostRow) × Inserted threads posts (wanted_post r reasons id) row
          × (t.1.posts ≡ row ∷ posts)
          × Answers reasons row t.0)

module _ {F : Float} (env : Environment F) where
  after_insert-Answers :
      (r : Reply) (keys : AttemptKeys) (author client : Decision) (reasons : List Reason) (p : Post)
      (row : PostRow) (posts : List PostRow) (v : World F)
      → p.id ≡ row.id
      → p.state ≡ row.state
      → v.posts ≡ posts
      → let t = after_insert env r keys author client reasons p v in
        (t.1.posts ≡ posts) × Answers reasons row t.0
  unfolding after_insert
  after_insert-Answers r keys author client [] p row posts v i s same =
      let P =
        λ (t : Result StoreError Outcome × World F). (t.1.posts ≡ posts) × Answers [] row t.0 in
      record_next-cases env P keys.identity (next author) _ v (same, inr (_, refl))
        (λ _ _.
          record_next-cases env P keys.client (next client) _ _ (same, inr (_, refl))
            (λ _ _. (same, inl (p, i, s, refl))))
  after_insert-Answers r keys author client (x ∷ xs) p row posts v i s same =
      let P = λ (t : Result StoreError Outcome × World F).
        (t.1.posts ≡ posts) × Answers (x ∷ xs) row t.0 in
      record_next-cases env P keys.identity (next author) _ v (same, inr (_, refl))
        (λ _ _.
          record_next-cases env P keys.client (next client) _ _ (same, inr (_, refl))
            (λ _ _.
              hold-cases env P p.id p.public_id (x ∷ xs) r.now _ _ (same, inr (_, refl))
                (λ told v3 p3 t3. (p3 ∙ same, inl (p, i, s, refl)))))

  inserted-Adds :
      (r : Reply) (keys : AttemptKeys) (author client : Decision) (reasons : List Reason)
      (again : M F Outcome) (e : StoreError) (v : World F)
      → Adds r reasons v.threads v.posts (again v)
      → Adds r reasons v.threads v.posts (inserted env r keys author client reasons again (err e) v)
  unfolding inserted
  inserted-Adds r keys author client reasons again StoreError.not_found v h =
      inl (refl, inl (_, refl))
  inserted-Adds r keys author client reasons again (StoreError.corrupt t) v h =
      inl (refl, inr (inr (_, refl)))
  inserted-Adds r keys author client reasons again (StoreError.backend t) v h =
      inl (refl, inr (inr (_, refl)))
  inserted-Adds r keys author client reasons again StoreError.conflict v h = h
  inserted-Adds r keys author client reasons again (StoreError.too_deep n) v h =
      inl (refl, inl (_, refl))

  state_for-wanted : (reasons : List Reason) → state_for reasons ≡ wanted_state reasons
  state_for-wanted [] = refl
  state_for-wanted (x ∷ xs) = refl

  pub attempt_ids-Adds :
      (r : Reply) (keys : AttemptKeys) (author client : Decision) (reasons : List Reason)
      (ids : List PublicId) (v : World F)
      → Adds r reasons v.threads v.posts (attempt_ids env r keys author client reasons ids v)
  unfolding attempt_ids inserted
  attempt_ids-Adds r keys author client reasons [] v = inl (refl, inl (_, refl))
  attempt_ids-Adds r keys author client reasons (id ∷ ids) v =
      let P = λ (t : Result StoreError Outcome × World F). Adds r reasons v.threads v.posts t in
      insert_post-cases P env.show_path_error (new_post env r (state_for reasons) id) _ v
        (λ e.
          inserted-Adds r keys author client reasons
            (attempt_ids env r keys author client reasons ids) e (spend v)
            (attempt_ids-Adds r keys author client reasons ids (spend v)))
        (λ number place plan free.
          let new = new_post env r (state_for reasons) id in
          let row = new_post_row number new place in
          let (after, answer) =
            after_insert-Answers r keys author client reasons _ row (row ∷ v.posts) _ refl refl
              refl in
          inr (
            id,
            row,
            subst (λ (s : PostState). Inserted v.threads v.posts (new_post env r s id) row)
                (state_for-wanted reasons)
                (planned-Inserted env.show_path_error (spend v) new number plan free),
            after,
            answer,
          ))
