-- ===== src/Pipeline/Process/Settled.antt =====
-- No post falls between the model and the people: what `process_post` of
-- crates/core/src/moderation/pipeline.rs leaves behind when it succeeds.
use notespace.Base.{false, not, List, some, Result, ok, err, ◌≡◌, ap, arith}
use notespace.Model.{PublicId, Timestamp, PostState, post_state_eq}
use notespace.Float.{Float}
use notespace.Moderation.{Verdict, Reason, ClassifyError}
use notespace.Moderation.Policy.{ModerationPolicy, Disposition, from_config}
use notespace.Store.{StoreError, World, PostRow, spend}
use notespace.Store.Runs.{if-cases}
use notespace.Store.Moderation.{ReviewPost, find_post}
use notespace.Store.Moderation.Runs.{
  post_for_review-cases, set_post_state-cases, log_action-cases, open_review-cases, agreement-cases,
  joined-find_post, find_post-updated,
}
use notespace.Store.Queries.{is_due}
use notespace.Store.Queries.Due.{not_pending-not_due, awaited-not_due, awaits_human-upsert}
use notespace.Pipeline.{Services, Processed}
use notespace.Pipeline.Process.{act, judge, release, process_post}

-- After a run that succeeded, the sweep does not select the post.
abbrev pub IsSettled : {F : Float} → PublicId → Result StoreError Processed × World F → Type 0
IsSettled post (result, w) =
    (x : Processed) (p : PostRow) (t : Timestamp)
    → result ≡ ok x
    → find_post w.posts post ≡ some p
    → is_due w t p ≡ false

module _ {F : Float} (services : Services F) (post : PublicId) (now : Timestamp) where
  act-IsSettled :
      (rp : ReviewPost) (v : Verdict F) (d : Disposition) (w : World F)
      → ((p : PostRow) → find_post w.posts post ≡ some p → rp.id ≡ p.id)
      → IsSettled post (act services post rp v now d w)
  unfolding act
  act-IsSettled rp v Disposition.publish w same =
      set_post_state-cases (IsSettled post) post _ _ w (λ x p t e. cc) (λ x p t e. cc)
        (λ threads.
          log_action-cases (IsSettled post) _ _ _ (λ x p t e. cc)
            (λ n x p t e f. not_pending-not_due _ t p (
              ap (λ s. post_state_eq s PostState.pending)
                (find_post-updated w.posts post PostState.visible p f))))
  act-IsSettled rp v Disposition.hide_for_review w same =
      set_post_state-cases (IsSettled post) post _ _ w (λ x p t e. cc) (λ x p t e. cc)
        (λ threads.
          log_action-cases (IsSettled post) _ _ _ (λ x p t e. cc)
            (λ n.
              open_review-cases (IsSettled post) _ _ _ (λ x p t e. cc)
                (λ m x p t e f. not_pending-not_due _ t p (
                  ap (λ s. post_state_eq s PostState.pending)
                    (find_post-updated w.posts post PostState.hidden p f)))))
  act-IsSettled rp v Disposition.hold_for_review w same =
      open_review-cases (IsSettled post) _ _ w (λ x p t e. cc)
        (λ m x p t e f. awaited-not_due _ t p (awaits_human-upsert m _ w.reviews p (same p f)))

  judge-IsSettled :
      (rp : ReviewPost) (policy : ModerationPolicy F) (c : Result ClassifyError (Verdict F))
      (w : World F)
      → ((p : PostRow) → find_post w.posts post ≡ some p → rp.id ≡ p.id)
      → IsSettled post (judge services post rp policy now c w)
  unfolding judge
  judge-IsSettled rp policy (err e) w same =
      log_action-cases (IsSettled post) _ _ w (λ x p t e. cc)
        (λ n.
          open_review-cases (IsSettled post) _ _ _ (λ x p t e. cc)
            (λ m x p t e f. awaited-not_due _ t p (awaits_human-upsert m _ w.reviews p (same p f))))
  judge-IsSettled rp policy (ok v) w same =
      log_action-cases (IsSettled post) _ _ w (λ x p t e. cc)
        (λ n.
          agreement-cases (IsSettled post) _ _ _ (λ x p t e. cc)
            (λ stats. act-IsSettled rp v _ _ same))

  release-IsSettled :
      (rp : ReviewPost) (w : World F) → IsSettled post (release services post rp now w)
  unfolding release
  release-IsSettled rp w =
      set_post_state-cases (IsSettled post) post _ _ w (λ x p t e. cc) (λ x p t e. cc)
        (λ threads.
          log_action-cases (IsSettled post) _ _ _ (λ x p t e. cc)
            (λ n x p t e f. not_pending-not_due _ t p (
              ap (λ s. post_state_eq s PostState.pending)
                (find_post-updated w.posts post PostState.visible p f))))

  process_post-IsSettled :
      (held_for : List Reason) (w : World F)
      → IsSettled post (process_post services post held_for now w)
  unfolding process_post
  process_post-IsSettled held_for w =
      post_for_review-cases (IsSettled post) post _ w (λ x p t e. cc) (λ x p t e. cc)
        (λ rp found.
          let same = λ (p : PostRow) (f : find_post w.posts post ≡ some p).
            joined-find_post w post rp p found f in
          let policy = from_config F services.parse_policy rp.space_config in
          if-cases (IsSettled post) (not (post_state_eq rp.state PostState.pending)) _ _ (spend w)
            (λ other x p t e f. not_pending-not_due _ t p (ground (arith, same p f)))
            (λ pending.
              if-cases (IsSettled post) (not policy.enabled) _ _ (spend w)
                (λ off. release-IsSettled rp (spend w))
                (λ on. judge-IsSettled rp policy _ (spend w) (λ p f. (same p f).1))))

  -- Whenever `process_post` succeeds, the post is afterwards out of the state pending or has an
  -- open review: the sweep, at whatever time it runs, no longer selects it.
  pub process_post-settles :
      (held_for : List Reason) (w : World F) (x : Processed) (p : PostRow) (t : Timestamp)
      → (process_post services post held_for now w).0 ≡ ok x
      → find_post (process_post services post held_for now w).1.posts post ≡ some p
      → is_due (process_post services post held_for now w).1 t p ≡ false
  process_post-settles held_for w x p t = process_post-IsSettled held_for w x p t
