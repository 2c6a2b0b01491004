-- ===== src/Compose/Creating.antt =====
-- What `create` of crates/core/src/compose.rs writes and answers, whichever calls of the store
-- fail.
use notespace.Base.{
  any, text_eq, subst, ◌++◌, ◌∷◌, ℕ, Bool, true, false, not, ◌||◌, Text, List, Option, none, some,
  Result, ok, err, take, text_eq, ◌==◌, All, ◌≡◌, ◌⊎◌, inl, inr, refl, arith,
}
use notespace.Float.{Float}
use notespace.RateLimit.{Decision, check, allowed, next}
use notespace.Moderation.{Reason}
use notespace.Moderation.Policy.{from_config, duplicate_window_ms}
use notespace.Heuristics.{Refusal}
use notespace.Store.{World, StoreError, ThreadRow, SpaceRow, spend}
use notespace.Store.Runs.{if-cases}
use notespace.Store.Moderation.{find}
use notespace.Store.Writing.{WriteContext, attempts_of, client_attempts}
use notespace.Store.Writing.Runs.{login_attempts-cases}
use notespace.Store.Threads.{
  new_thread_row, space_joined, space_by_path-cases, space_context-cases, create_thread-cases,
}
use notespace.Reply.{Environment}
use notespace.Reply.Calls.{
  Finds, judgement-Finds, repeats, judgement, judgement-unrepeated, triage-cases, record_next-cases,
}
use notespace.Compose.{
  ComposeConfig, Draft, Rejected, Outcome, check_draft, scanned, new_thread, kind_of, triaged,
  in_context, in_space, limited, keys_of, checked, create,
}
use notespace.Compose.Drafts.{WellFormed, check_draft_sound}
use notespace.Compose.Adding.{wanted_kind, Started, Declines, Adds, attempt_ids-Adds}

module _ {F : Float} (env : Environment F) (d : Draft) where
  -- What lets a draft through: its title, its url and its body, both limits, a space at its path,
  -- and the reasons that the free checks found in this context; the author has not posted this body
  -- since the window for duplicates began.
  pub record Admitted (cfg : ComposeConfig) (title : Text) (url : Option Text) (space : SpaceRow)
      (reasons : List Reason) (w : World F) : Type 0 where
    pub context : WriteContext
    pub well_formed : WellFormed d.title d.url d.body_md title url
    pub author_allowed :
        allowed (check cfg.per_author (attempts_of (keys_of env d).identity w.attempts) d.now)
        ≡ true
    pub client_allowed :
        allowed (check cfg.per_client (client_attempts (keys_of env d) w.attempts) d.now) ≡ true
    pub at_path : find (λ s. text_eq s.path d.space.stored) w.spaces ≡ some space
    pub joined : space_joined w space.id d.author ≡ some context
    pub judged : Finds env context (title ++ 10 ∷ 10 ∷ d.body_md) false d.now reasons
    pub no_repeat :
        repeats d.author d.body_md d.now
          (duplicate_window_ms F (from_config F env.services.parse_policy context.space_config))
          w.posts
        ≡ false

  -- A run declines or fails and changes neither posts nor threads, or it starts the thread of an
  -- admitted draft and may add its first post.
  pub Creates : ComposeConfig → World F → Result StoreError Outcome × World F → Type 0
  Creates cfg w t =
      ((t.1.posts ≡ w.posts) × (t.1.threads ≡ w.threads) × Declines t.0)
      ⊎ ((title : Text) × (url : Option Text) × (space : SpaceRow) × (reasons : List Reason)
          × Admitted cfg title url space reasons w
          × (thread : ThreadRow) × Started w.threads d title url space thread
          × Adds d thread reasons w.threads w.posts t)

  kind_of-wanted : (url : Option Text) → kind_of url ≡ wanted_kind url
  kind_of-wanted none = refl
  kind_of-wanted (some url) = refl

  module _ (cfg : ComposeConfig) (w : World F) where
    declined :
        (t : Result StoreError Outcome × World F)
        → t.1.posts ≡ w.posts
        → t.1.threads ≡ w.threads
        → Declines t.0
        → Creates cfg w t
    unfolding Creates
    declined t posts threads declines = inl (posts, threads, declines)

    module _ (title : Text) (url : Option Text) where
      started :
          (space : SpaceRow) (reasons : List Reason) (id : ℕ)
          (t : Result StoreError Outcome × World F)
          → Admitted cfg title url space reasons w
          → All (λ t. (t.id == id) ≡ false) w.threads
          → any (λ t. text_eq t.public_id d.thread_id) w.threads ≡ false
          → Adds d (new_thread_row id (new_thread d title url space)) reasons w.threads w.posts t
          → Creates cfg w t
      unfolding Creates
      started space reasons id t a fresh unnamed adds =
          let row = new_thread_row id (new_thread d title url space) in
          let start : Started w.threads d title url space row = record {
            named = refl;
            in_space = refl;
            in_path = refl;
            of_kind = kind_of-wanted url;
            titled = refl;
            linked = refl;
            by_author = refl;
            at_time = refl;
            in_state = refl;
            without_posts = refl;
            fresh = fresh;
            unnamed = unnamed;
          } in
          inr (title, url, space, reasons, a, row, start, adds)

      triaged-Creates :
          (author client : Decision) (space : SpaceRow) (faults : List Bool)
          (found : Result Refusal (List Reason))
          → ((reasons : List Reason) → found ≡ ok reasons → Admitted cfg title url space reasons w)
          → Creates cfg w (
              triaged env d
                (keys_of env d)
                author
                client
                title
                url
                space
                found
                (record w { faults = faults }))
      unfolding triaged
      triaged-Creates author client space faults (err why) admitted =
          declined _ refl refl (inl (_, refl))
      triaged-Creates author client space faults (ok reasons) admitted =
          let P = Creates cfg w in
          let done = λ (id : ℕ) (t : Result StoreError Outcome × World F).
            started space reasons id t (admitted reasons refl) in
          create_thread-cases P (new_thread d title url space) _ (record w { faults = faults })
            (λ e. declined _ refl refl (inr (inr (_, refl))))
            (λ id fresh unnamed.
              let row = new_thread_row id (new_thread d title url space) in
              record_next-cases env P (keys_of env d).identity (next author) _ _
                (done id _ fresh unnamed (inl (refl, refl, inr (_, refl))))
                (λ a1 f1.
                  record_next-cases env P (keys_of env d).client (next client) _ _
                    (done id _ fresh unnamed (inl (refl, refl, inr (_, refl))))
                    (λ a2 f2. done id _ fresh unnamed (
                      attempt_ids-Adds env d row reasons (take 4 d.post_ids) w.threads
                        (record w { attempts = a2; faults = f2 }) fresh))))

      in_context-Creates :
          (author client : Decision) (space : SpaceRow) (faults : List Bool) (ctx : WriteContext)
          → ((reasons : List Reason)
              → judgement env ctx d.author (scanned title d.body_md) d.body_md d.now w.posts
                ≡ ok reasons
              → Admitted cfg title url space reasons w)
          → Creates cfg w (
              in_context env d
                (keys_of env d)
                author
                client
                title
                url
                space
                (ok ctx)
                (record w { faults = faults }))
      unfolding in_context
      in_context-Creates author client space faults ctx admitted =
          triage-cases env (Creates cfg w) ctx d.author (scanned title d.body_md) d.body_md d.now _
            (record w { faults = faults }) (declined _ refl refl (inr (inr (_, refl))))
            (triaged-Creates author client space faults _ admitted)
            (triaged-Creates author client space _ _ admitted)

      in_space-Creates :
          (author client : Decision) (faults : List Bool) (found : Option SpaceRow)
          → ((space : SpaceRow) (ctx : WriteContext) (reasons : List Reason)
              → found ≡ some space
              → space_joined w space.id d.author ≡ some ctx
              → judgement env ctx d.author (scanned title d.body_md) d.body_md d.now w.posts
                ≡ ok reasons
              → Admitted cfg title url space reasons w)
          → Creates cfg w (
              in_space env d
                (keys_of env d)
                author
                client
                title
                url
                found
                (record w { faults = faults }))
      unfolding in_space space_joined in_context
      in_space-Creates author client faults none admitted = declined _ refl refl (inl (_, refl))
      in_space-Creates author client faults (some space) admitted =
          space_context-cases (Creates cfg w) space.id d.author _ (record w { faults = faults })
            (declined _ refl refl (inr (inr (_, refl)))) (declined _ refl refl (inl (_, refl)))
            (λ ctx joined.
              in_context-Creates author client space _ ctx
                (λ reasons. admitted space ctx reasons refl joined))

    checked-Creates :
        (draft : Result Rejected (Text × Option Text))
        → check_draft d.title d.url d.body_md ≡ draft
        → Creates cfg w (checked env d cfg draft w)
    unfolding checked limited
    checked-Creates (err why) bad = declined _ refl refl (inl (_, refl))
    checked-Creates (ok (title, url)) good =
        let P = Creates cfg w in
        let keys = keys_of env d in
        let author = check cfg.per_author (attempts_of keys.identity w.attempts) d.now in
        let client = check cfg.per_client (client_attempts keys w.attempts) d.now in
        login_attempts-cases P keys _ w (declined _ refl refl (inr (inr (_, refl)))) (
          if-cases P (not (allowed author) || not (allowed client)) _ _ (spend w)
            (λ e. declined _ refl refl (inr (inl (_, refl))))
            (λ both.
              space_by_path-cases P d.space _ (spend w) (declined _ refl refl (inr (inr (_, refl))))
                (in_space-Creates title url author client _ _
                  (λ space ctx reasons found joined judged.
                    let fresh =
                      judgement-unrepeated env ctx d.author (scanned title d.body_md) d.body_md
                        d.now w.posts judged in
                    let answered =
                      subst (λ b. Finds env ctx (scanned title d.body_md) b d.now reasons) fresh
                        (judgement-Finds env ctx d.author (scanned title d.body_md) d.body_md d.now
                          w.posts judged) in
                    record {
                      context = ctx;
                      well_formed = check_draft_sound d.title d.url d.body_md good;
                      author_allowed = ground (arith, both);
                      client_allowed = ground (arith, both);
                      at_path = found;
                      joined = joined;
                      judged = answered;
                      no_repeat = fresh;
                    }))))

  -- Whichever calls of the store fail, a run declines or fails and changes neither posts nor
  -- threads, or it starts one thread. Then the draft's title, url and body are well formed, both
  -- limits allow it, its path is a space, the free checks of title and body did not refuse it,
  -- and no stored post has its author and body and is in the policy's window for duplicates. The
  -- thread has ids that no thread has; it is visible and the draft's, a link exactly if there is a
  -- url. Its first post follows: the row is in that thread and has no parent, with the draft's
  -- author and body; it is visible exactly if the checks found no reason to hold it and pending
  -- otherwise, the thread counts it, and the answer names both and says which, unless a later call
  -- fails. If no post follows, the answer says so: the ids ran out, or a call failed.
  pub create-Creates : (cfg : ComposeConfig) (w : World F) → Creates cfg w (create env d cfg w)
  unfolding create
  create-Creates cfg w = checked-Creates cfg w (check_draft d.title d.url d.body_md) refl
