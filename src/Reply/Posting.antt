-- ===== src/Reply/Posting.antt =====
-- What `post` of crates/core/src/reply.rs writes and answers, whichever calls of the store fail.
use notespace.Base.{
  subst, false, Bool, true, not, ◌||◌, List, ◌∷◌, some, Result, ok, err, take, ◌≡◌, ◌⊎◌, inl, inr,
  refl, arith,
}
use notespace.Model.{PublicId, ThreadState}
use notespace.Float.{Float}
use notespace.RateLimit.{Decision, check, allowed}
use notespace.Moderation.{Reason}
use notespace.Moderation.Policy.{from_config, duplicate_window_ms}
use notespace.Heuristics.{Refusal}
use notespace.Store.{World, StoreError, PostRow, spend}
use notespace.Store.Runs.{if-cases}
use notespace.Store.Writing.{
  WriteContext, AttemptKeys, joined_context, attempts_of, client_attempts,
}
use notespace.Store.Writing.Runs.{write_context-cases, login_attempts-cases}
use notespace.Store.Writing.Placing.{Inserted}
use notespace.Reply.Calls.{
  Finds, judgement-Finds, repeats, judgement, judgement-unrepeated, triage-cases,
}
use notespace.Reply.{
  ReplyConfig, Reply, Rejected, Outcome, check_body, takes_replies, Environment, triaged,
  in_context, limited, keys_of, checked_body, post,
}
use notespace.Reply.Bodies.{Sized, check_body_sound}
use notespace.Reply.Adding.{wanted_post, Declines, Answers, Adds, attempt_ids-Adds}

module _ {F : Float} (env : Environment F) where
  -- What lets a reply through: its length, both limits, a thread that takes replies, and the
  -- reasons that the free checks found in this context; the author has not posted this body since
  -- the window for duplicates began.
  pub record Admitted (cfg : ReplyConfig) (r : Reply) (reasons : List Reason) (w : World F)
      : Type 0 where
    pub context : WriteContext
    pub right_length : Sized r.body_md
    pub author_allowed :
        allowed (check cfg.per_author (attempts_of (keys_of env r).identity w.attempts) r.now)
        ≡ true
    pub client_allowed :
        allowed (check cfg.per_client (client_attempts (keys_of env r) w.attempts) r.now) ≡ true
    pub joined : joined_context w r.thread r.author ≡ some context
    pub taking :
        (context.thread_state ≡ ThreadState.visible) ⊎ (context.thread_state ≡ ThreadState.pinned)
    pub judged : Finds env context r.body_md false r.now reasons
    pub no_repeat :
        repeats r.author r.body_md r.now
          (duplicate_window_ms F (from_config F env.services.parse_policy context.space_config))
          w.posts
        ≡ false

  -- A run declines or fails and leaves all posts alone, or it adds one post, which is the admitted
  -- reply in the state that its reasons ask for, and answers with it or fails.
  pub Posts : ReplyConfig → Reply → World F → Result StoreError Outcome × World F → Type 0
  Posts cfg r w t =
      ((t.1.posts ≡ w.posts) × Declines t.0)
      ⊎ ((reasons : List Reason) × Admitted cfg r reasons w
          × (id : PublicId) × (row : PostRow) × Inserted w.threads w.posts
              (wanted_post r reasons id) row
          × (t.1.posts ≡ row ∷ w.posts)
          × Answers reasons row t.0)

  module _ (cfg : ReplyConfig) (r : Reply) (w : World F) where
    declined :
        (t : Result StoreError Outcome × World F)
        → t.1.posts ≡ w.posts
        → Declines t.0
        → Posts cfg r w t
    unfolding Posts
    declined t same declines = inl (same, declines)

    widen :
        (reasons : List Reason) (t : Result StoreError Outcome × World F)
        → Admitted cfg r reasons w
        → Adds r reasons w.threads w.posts t
        → Posts cfg r w t
    unfolding Posts
    widen reasons t a (inl (same, declines)) = inl (same, declines)
    widen reasons t a (inr (id, row, placed, added, answer)) =
        inr (reasons, a, id, row, placed, added, answer)

    triaged-Posts :
        (keys : AttemptKeys) (author client : Decision) (faults : List Bool)
        (found : Result Refusal (List Reason))
        → ((reasons : List Reason) → found ≡ ok reasons → Admitted cfg r reasons w)
        → Posts cfg r w (triaged env r keys author client found (record w { faults = faults }))
    unfolding triaged
    triaged-Posts keys author client faults (err why) admitted = declined _ refl (inl (_, refl))
    triaged-Posts keys author client faults (ok reasons) admitted =
        widen reasons _ (admitted reasons refl) (
          attempt_ids-Adds env r keys author client reasons (take 4 r.ids)
            (record w { faults = faults }))

    in_context-Posts :
        (author client : Decision) (faults : List Bool) (ctx : WriteContext)
        → ((ctx.thread_state ≡ ThreadState.visible) ⊎ (ctx.thread_state ≡ ThreadState.pinned)
            → (reasons : List Reason)
            → judgement env ctx r.author r.body_md r.body_md r.now w.posts ≡ ok reasons
            → Admitted cfg r reasons w)
        → Posts cfg r w
            (in_context env r (keys_of env r) author client (ok ctx) (record w { faults = faults }))
    unfolding in_context
    in_context-Posts author client faults ctx admitted =
        let P = Posts cfg r w in
        if-cases P (not (takes_replies ctx.thread_state)) _ _ (record w { faults = faults })
          (λ e. declined _ refl (inl (_, refl)))
          (λ open_thread.
            triage-cases env P ctx r.author r.body_md r.body_md r.now _
              (record w { faults = faults }) (declined _ refl (inr (inr (_, refl))))
              (triaged-Posts (keys_of env r) author client faults _
                (admitted (ground (arith, open_thread))))
              (triaged-Posts (keys_of env r) author client _ _
                (admitted (ground (arith, open_thread)))))

    checked_body-Posts :
        (checked : Result Rejected (Unit {0}))
        → check_body r.body_md ≡ checked
        → Posts cfg r w (checked_body env cfg r checked w)
    unfolding checked_body limited joined_context in_context
    checked_body-Posts (err why) bad = declined _ refl (inl (_, refl))
    checked_body-Posts (ok _) good =
        let P = Posts cfg r w in
        let keys = keys_of env r in
        let author = check cfg.per_author (attempts_of keys.identity w.attempts) r.now in
        let client = check cfg.per_client (client_attempts keys w.attempts) r.now in
        login_attempts-cases P keys _ w (declined _ refl (inr (inr (_, refl)))) (
          if-cases P (not (allowed author) || not (allowed client)) _ _ (spend w)
            (λ e. declined _ refl (inr (inl (_, refl))))
            (λ both.
              write_context-cases P r.thread r.author _ (spend w)
                (declined _ refl (inr (inr (_, refl)))) (declined _ refl (inl (_, refl)))
                (λ ctx found. in_context-Posts author client _ ctx (λ taking reasons judged.
                  let fresh =
                    judgement-unrepeated env ctx r.author r.body_md r.body_md r.now w.posts
                      judged in
                  let answered =
                    subst (λ b. Finds env ctx r.body_md b r.now reasons) fresh
                      (judgement-Finds env ctx r.author r.body_md r.body_md r.now w.posts judged) in
                  record {
                    context = ctx;
                    right_length = check_body_sound r.body_md good;
                    author_allowed = ground (arith, both);
                    client_allowed = ground (arith, both);
                    joined = found;
                    taking = taking;
                    judged = answered;
                    no_repeat = fresh;
                  }))))

  -- Whichever calls of the store fail, a run declines or fails and leaves all posts alone, or it
  -- adds one post. Then the reply has an allowed length, both limits allow it, its thread takes
  -- replies, the free checks did not refuse it, and no stored post has its author and body and is
  -- in the policy's window for duplicates. The post is in the reply's thread, below its parent, at
  -- a path that no post of the thread has and under a public id that no post has; it has the reply's
  -- author and body, it is visible exactly if the checks found no reason to hold it and pending
  -- otherwise, and the answer says which, unless a later call fails.
  pub post-Posts : (cfg : ReplyConfig) (r : Reply) (w : World F) → Posts cfg r w (post env cfg r w)
  unfolding post
  post-Posts cfg r w = checked_body-Posts cfg r w (check_body r.body_md) refl
