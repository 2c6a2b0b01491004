-- ===== src/Edit/Rewriting/Edits.antt =====
-- What `edit` of crates/core/src/edit.rs leaves behind, and who may do it.
use notespace.Base.{
  Bool, true, false, not, Text, List, none, some, map, if◌then◌else◌, text_eq, Result, ok, err, ◌≡◌,
  ◌∙◌, Bool-cases, List, [], ◌∷◌, ◌⊎◌, ◌↔◌, refl, inl, inr, arith,
}
use notespace.Model.{PublicId, Timestamp, PostState, ThreadState, User}
use notespace.Float.{Float}
use notespace.Moderation.{Reason}
use notespace.Moderation.Policy.{from_config}
use notespace.Heuristics as Heuristics
use notespace.Heuristics.{Triage}
use notespace.Store.{StoreError, World, PostRow, M, spend, bind, resume}
use notespace.Store.Runs.{if-cases}
use notespace.Store.Moderation.{ReviewPost, joined, update_posts, is_post}
use notespace.Store.Moderation.Runs.{
  post_for_review-handled, set_post_state-cases, log_action-cases,
}
use notespace.Store.Writing.{WriteContext, joined_context, rewritten}
use notespace.Store.Writing.Runs.{write_context-bound, update_post_body-cases}
use notespace.Reply as Reply
use notespace.Reply.{Environment, check_body, takes_replies, triage, to_reasons, signals_of}
use notespace.Reply.Bodies.{Sized, check_body_sound}
use notespace.Reply.Calls.{Answered, Finds, hold-cases}
use notespace.Edit.{Rejected, may_edit}
use notespace.Edit.Rewriting.{
  EditOutcome, edited, held, rejected, editable, found_reasons, stays, rewrite, in_thread,
  edit_found, edit_looked_up, edit_checked, edit,
}

module _ {F : Float} (env : Environment F) (post : PublicId) (user : User) (body : Text)
    (now : Timestamp) where
  abbrev judged : WriteContext → List Reason
  judged ctx = found_reasons (
      to_reasons env (
        Heuristics.triage env.unicode F (from_config F env.services.parse_policy ctx.space_config)
          (signals_of env ctx body false now)))

  -- The rows, where the post has the new body, the time of the edit, and its state or `pending`.
  abbrev pub with_body : PostRow → PostRow
  with_body p =
      if text_eq p.public_id post then record p { body_md = body; edited_at = some now } else p

  abbrev pub with_body_held : PostRow → PostRow
  with_body_held p =
      if text_eq p.public_id post
      then record p { body_md = body; edited_at = some now; state = PostState.pending }
      else p

  held_row :
      (p : PostRow)
      → (let q = rewritten post body now p in
          if is_post post q then record q { state = PostState.pending } else q)
        ≡ with_body_held p
  unfolding rewritten
  held_row p = elim (Bool-cases (text_eq p.public_id post)) [
    | inl this ↦ rw (this, this) refl
    | inr other ↦ rw (other, other) refl
  ]

  held_rows :
      (ps : List PostRow)
      → update_posts (map (rewritten post body now) ps) post PostState.pending
        ≡ map with_body_held ps
  unfolding update_posts
  held_rows [] = refl
  held_rows (p ∷ ps) = λ i. held_row p i ∷ held_rows ps i

  -- Nothing has to be held, or it is held already.
  abbrev pub Stays : List Reason → PostState → Type 0
  Stays reasons state = (reasons ≡ []) ⊎ (state ≡ PostState.pending)

  stays-Stays :
      (reasons : List Reason) (state : PostState)
      → (stays reasons state ≡ true) ↔ Stays reasons state
  stays-Stays [] state = ground arith
  stays-Stays (r ∷ rs) state = ground arith

  -- What the step answers after the rewriting, and the rows it leaves: where the new body may stay
  -- as it is, `edited`; where it must be held, `held` with the post pending. An error is a call
  -- that failed.
  pub Written :
      List Reason → ReviewPost → List PostRow → Result StoreError EditOutcome × World F → Type 0
  Written reasons rp before t =
      ((t.1.posts ≡ map with_body before)
        × (((t.0 ≡ ok edited) × Stays reasons rp.state) ⊎ ((e : StoreError) × (t.0 ≡ err e))))
      ⊎ ((t.1.posts ≡ map with_body_held before)
          × (Stays reasons rp.state → ⊥)
          × ((t.0 ≡ ok (held rp.thread_public_id)) ⊎ ((e : StoreError) × (t.0 ≡ err e))))

  -- The step rejects the edit or fails.
  pub Refuses : Result StoreError EditOutcome → Type 0
  Refuses r = ((why : Rejected) × (r ≡ ok (rejected why))) ⊎ ((e : StoreError) × (r ≡ err e))

  -- The step leaves all posts alone, or the body has an allowed length, the user is the author, the
  -- post is visible or pending, its thread takes replies, and the post is rewritten.
  pub Edits : World F → Result StoreError EditOutcome × World F → Type 0
  Edits w t =
      ((t.1.posts ≡ w.posts) × Refuses t.0)
      ⊎ ((rp : ReviewPost) × (ctx : WriteContext) × Sized body
          × (joined w post ≡ some rp)
          × (joined_context w rp.thread_public_id user.id ≡ some ctx)
          × (user.id ≡ rp.author_id)
          × ((rp.state ≡ PostState.visible) ⊎ (rp.state ≡ PostState.pending))
          × ((ctx.thread_state ≡ ThreadState.visible) ⊎ (ctx.thread_state ≡ ThreadState.pinned))
          × (reasons : List Reason) × Finds env ctx body false now reasons
          × Written reasons rp w.posts t)

  found_reasons-Answered :
      (passes none_found : Bool) (reasons : List Reason)
      → let answer =
          if passes
          then Triage.publish
          else if none_found
          then Triage.publish
          else Triage.hold reasons in
        Answered env answer (found_reasons (to_reasons env answer))
  found_reasons-Answered true b reasons = inl (refl, refl)
  found_reasons-Answered false true reasons = inl (refl, refl)
  found_reasons-Answered false false reasons = inr refl

  -- Without duplicates the checks refuse nothing.
  judged-Finds : (ctx : WriteContext) → Finds env ctx body false now (judged ctx)
  unfolding Heuristics.triage
  judged-Finds ctx = found_reasons-Answered _ _ _

  rewrite-Written :
      (rp : ReviewPost) (reasons : List Reason) (w : World F)
      → let t = rewrite env post user body now rp reasons w in
        ((t.1.posts ≡ w.posts) × Refuses t.0) ⊎ Written reasons rp w.posts t
  unfolding rewrite Written Refuses rewritten
  rewrite-Written rp reasons w =
      let P = λ (t : Result StoreError EditOutcome × World F).
        ((t.1.posts ≡ w.posts) × Refuses t.0) ⊎ Written reasons rp w.posts t in
      update_post_body-cases P post body now _ w (inl (refl, inr (_, refl)))
        (inl (refl, inr (_, refl)))
        (λ threads. log_action-cases P _ _ _ (inr (inl (refl, inr (_, refl)))) (λ n.
          if-cases P (stays reasons rp.state) _ _ _
            (λ e. inr (inl (refl, inl (refl, (stays-Stays reasons rp.state).0 e))))
            (λ e.
              set_post_state-cases P post _ _ _ (inr (inl (refl, inr (_, refl))))
                (inr (inl (refl, inr (_, refl))))
                (λ more.
                  let no : Stays reasons rp.state → ⊥ =
                    λ h. let q = (stays-Stays reasons rp.state).1 h in cc in
                  let rows : update_posts (map (rewritten post body now) w.posts) post
                        PostState.pending
                      ≡ map with_body_held w.posts =
                    held_rows w.posts in
                  hold-cases env P rp.id rp.public_id reasons now _ _
                    (inr (inr (rows, no, inr (_, refl))))
                    (λ r v same threads. inr (inr (same ∙ rows, no, inl refl)))))))

  widened :
      (rp : ReviewPost) (ctx : WriteContext) (w : World F)
      (t : Result StoreError EditOutcome × World F)
      → Sized body
      → joined w post ≡ some rp
      → joined_context w rp.thread_public_id user.id ≡ some ctx
      → user.id ≡ rp.author_id
      → (rp.state ≡ PostState.visible) ⊎ (rp.state ≡ PostState.pending)
      → (ctx.thread_state ≡ ThreadState.visible) ⊎ (ctx.thread_state ≡ ThreadState.pinned)
      → ((t.1.posts ≡ w.posts) × Refuses t.0) ⊎ Written (judged ctx) rp w.posts t
      → Edits w t
  unfolding Edits
  widened rp ctx w t good found context own state open_thread (inl same) = inl same
  widened rp ctx w t good found context own state open_thread (inr written) = inr (
    rp,
    ctx,
    good,
    found,
    context,
    own,
    state,
    open_thread,
    judged ctx,
    judged-Finds ctx,
    written,
  )

  -- Without the search for duplicates the checks call no store.
  triage_alone :
      {B : Type 0} (P : Result StoreError B × World F → Type 0) (ctx : WriteContext)
      (k : Result Heuristics.Refusal (List Reason) → M F B) (v : World F)
      → P (
          k
            (to_reasons env (
              Heuristics.triage env.unicode F
                (from_config F env.services.parse_policy ctx.space_config)
                (signals_of env ctx body false now)))
            v)
      → P (bind (triage env ctx user.id body none now) k v)
  unfolding triage bind resume
  triage_alone P ctx k v p = p

  edit_checked-Edits :
      (checked : Result Reply.Rejected (Unit {0})) (w : World F)
      → check_body body ≡ checked
      → Edits w (edit_checked env post user body now checked w)
  unfolding edit_checked edit_looked_up edit_found in_thread Edits joined_context Refuses
  edit_checked-Edits (err why) w bad = inl (refl, inl (_, refl))
  edit_checked-Edits (ok _) w good =
      let P = λ (t : Result StoreError EditOutcome × World F). Edits w t in
      post_for_review-handled P post _ w (inl (refl, inr (_, refl))) (inl (refl, inl (_, refl)))
        (λ rp found.
          if-cases P (not (may_edit user rp.author_id)) _ _ (spend w)
            (λ e. inl (refl, inl (_, refl)))
            (λ own.
              if-cases P (not (editable rp.state)) _ _ (spend w) (λ e. inl (refl, inl (_, refl)))
                (λ state.
                  write_context-bound P rp.thread_public_id user.id _ (spend w)
                    (inl (refl, inr (_, refl))) (inl (refl, inr (_, refl)))
                    (λ ctx context.
                      if-cases P (not (takes_replies ctx.thread_state)) _ _ _
                        (λ e. inl (refl, inl (_, refl)))
                        (λ open_thread. triage_alone P ctx _ (spend (spend w)) (
                          widened rp ctx w _ (check_body_sound body good) found context
                            (ground (arith, own)) (ground (arith, state))
                            (ground (arith, open_thread))
                            (rewrite-Written rp (judged ctx) (spend (spend w)))))))))

  -- Whichever calls of the store fail, `edit` rejects or returns an error and leaves every post
  -- alone, or the body has an allowed length, and it gives it to the one post, whose author the
  -- user is, which was visible or pending in a thread that takes replies. Where the checks found no
  -- reason to hold the new body, or the post was pending, the post keeps its state and the answer
  -- is `edited`; where they found one, the post becomes pending and the answer is `held`; either
  -- unless a call returns an error.
  pub edit-Edits : (w : World F) → Edits w (edit env post user body now w)
  unfolding edit
  edit-Edits w = edit_checked-Edits (check_body body) w refl
