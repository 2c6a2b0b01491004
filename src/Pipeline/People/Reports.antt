-- ===== src/Pipeline/People/Reports.antt =====
-- `report` of crates/core/src/moderation/pipeline.rs: each person counts once.
use notespace.Base.{
  ℕ, true, false, not, ◌&&◌, Text, List, [], ◌∷◌, Option, some, Result, ok, ◌≡◌, ◌≤◌, refl, sym,
  ◌∙◌, arith, leb, max, any, ◌==◌, leb→le, subst,
}
use notespace.Model.{PublicId, Timestamp, PostState, User, post_state_eq}
use notespace.Float.{Float}
use notespace.Moderation.{Reason}
use notespace.Moderation.Policy.{from_config}
use notespace.Store.{StoreError, World, PostRow, SignalRow, M, spend, bind, resume}
use notespace.Store.Runs.{if-cases}
use notespace.Store.Moderation.{
  ReviewPost, ReportTally, find_post, joined, same_signal, count_signals,
}
use notespace.Store.Queries.{awaits_human}
use notespace.Store.Queries.Due.{awaits_human-upsert}
use notespace.Store.Moderation.Runs.{
  post_for_review-found, add_report-cases, set_post_state-cases, open_review-cases,
  log_action-cases, joined-find_post, find_post-updated,
}
use notespace.Pipeline.{Services, tell, ReportOutcome, held}
use notespace.Pipeline.People.{report, kept_reason, count_report, hold_reported}
use notespace.Pipeline.People.Rulings.{Unmoved}

-- No two rows are by the same person about the same post.
abbrev pub IsDistinct : List SignalRow → Type 0
IsDistinct [] = Unit
IsDistinct (s ∷ rows) = (any (same_signal s.post_id s.user_id) rows ≡ false) × IsDistinct rows

module _ {F : Float} (services : Services F) (post : PublicId) (who : User) (now : Timestamp) where
  -- Reporting a post again changes no post, no row of the log, no review and no report.
  pub report-again :
      (reason : Option Text) (w : World F) (rp : ReviewPost)
      → joined w post ≡ some rp
      → any (same_signal rp.id who.id) w.signals ≡ true
      → let w' = (report services post who reason now w).1 in
        Unmoved w w' × (w'.signals ≡ w.signals)
  unfolding report count_report
  report-again reason w rp found known =
      let P = λ (r : Result StoreError ReportOutcome × World F).
        Unmoved w r.1 × (r.1.signals ≡ w.signals) in
      post_for_review-found P post _ w rp found ((refl, refl, refl), refl)
        (if-cases P (rp.author_id == who.id) _ _ _ (λ e. ((refl, refl, refl), refl))
          (λ e.
            if-cases P (post_state_eq rp.state PostState.deleted) _ _ _
              (λ e. ((refl, refl, refl), refl))
              (λ e.
                add_report-cases P _ _ _ ((refl, refl, refl), refl)
                  (λ e. ((refl, refl, refl), refl)) (λ fresh. cc))))

  tell-cases :
      {B : Type 0} (P : Result StoreError B × World F → Type 0) (reasons : List Reason)
      (k : Result Text (Unit {0}) → M F B) (w : World F)
      → P (k (services.enqueue post reasons) (record w { sent = (post, reasons) ∷ w.sent }))
      → P (bind (tell services post reasons) k w)
  unfolding bind tell resume
  tell-cases P reasons k w p = p

  -- What a hold by reports rests on, and what it leaves.
  abbrev pub HeldRight : ReviewPost → World F → Result StoreError ReportOutcome × World F → Type 0
  HeldRight rp w (result, w') =
      (n : ℕ)
      → result ≡ ok (held n)
      → (rp.state ≡ PostState.visible)
        × (max (from_config F services.parse_policy rp.space_config).report_threshold 1 ≤ n)
        × (n ≡ count_signals rp.id w'.signals)
        × ((p : PostRow) → find_post w'.posts post ≡ some p → p.state ≡ PostState.pending)
        × ((p : PostRow) → find_post w.posts post ≡ some p → awaits_human w'.reviews p ≡ true)

  count_report-HeldRight :
      (rp : ReviewPost) (w u : World F) (tally : ReportTally)
      → joined w post ≡ some rp
      → u.posts ≡ w.posts
      → tally.count ≡ count_signals rp.id u.signals
      → HeldRight rp w (count_report services post who now rp tally u)
        × ((count_report services post who now rp tally u).1.signals ≡ u.signals)
  unfolding count_report hold_reported
  count_report-HeldRight rp w u tally found same counted =
      let P = λ (r : Result StoreError ReportOutcome × World F).
        HeldRight rp w r × (r.1.signals ≡ u.signals) in
      let policy = from_config F services.parse_policy rp.space_config in
      if-cases P (not tally.added) _ _ u (λ e. (λ n h. cc, refl))
        (λ e.
          log_action-cases P _ _ u (λ n h. cc, refl)
            (λ m.
              if-cases P
                (post_state_eq rp.state PostState.visible
                  && leb (max policy.report_threshold 1) tally.count)
                _ _ _
                (λ crossed.
                  set_post_state-cases P post _ _ _ (λ n h. cc, refl) (λ n h. cc, refl)
                    (λ threads.
                      log_action-cases P _ _ _ (λ n h. cc, refl)
                        (λ k.
                          open_review-cases P _ _ _ (λ n h. cc, refl)
                            (λ next. tell-cases P [] _ _ (
                              λ n h.
                                  let agree : tally.count ≡ n = cc in
                                  (
                                    ground arith,
                                    ground
                                        (arith, leb→le (max policy.report_threshold 1) tally.count),
                                    sym agree ∙ counted,
                                    λ p f. find_post-updated u.posts post PostState.pending p f,
                                    λ p f.
                                        awaits_human-upsert next _ u.reviews p
                                          (joined-find_post w post rp p found f).1,
                                  ),
                              refl,
                            )))))
                (λ e. (λ n h. cc, refl))))

  report-parts :
      (reason : Option Text) (w : World F) (rp : ReviewPost)
      → joined w post ≡ some rp
      → HeldRight rp w (report services post who reason now w)
        × (IsDistinct w.signals → IsDistinct (report services post who reason now w).1.signals)
  unfolding report
  report-parts reason w rp found =
      let P = λ (r : Result StoreError ReportOutcome × World F).
        HeldRight rp w r × (IsDistinct w.signals → IsDistinct r.1.signals) in
      let u = spend (spend w) in
      let s : SignalRow = record {
        post_id = rp.id;
        user_id = who.id;
        reason = kept_reason services reason;
        created_at = now;
      } in
      post_for_review-found P post _ w rp found (λ n h. cc, λ d. d)
        (if-cases P (rp.author_id == who.id) _ _ _ (λ e. (λ n h. cc, λ d. d))
          (λ e.
            if-cases P (post_state_eq rp.state PostState.deleted) _ _ _ (λ e. (λ n h. cc, λ d. d))
              (λ e.
                add_report-cases P s _ _ (λ n h. cc, λ d. d)
                  (λ known.
                    let (right, same) =
                      count_report-HeldRight rp w u
                        (record { added = false; count = count_signals rp.id w.signals }) found refl
                        refl in
                    (right, λ d. subst IsDistinct (sym same) d))
                  (λ fresh.
                    let (right, same) =
                      count_report-HeldRight rp w (record u { signals = s ∷ w.signals })
                        (record { added = true; count = count_signals rp.id (s ∷ w.signals) }) found
                        refl refl in
                    (right, λ d. subst IsDistinct (sym same) (fresh, d))))))

  -- A post is held by reports only while it is visible and once as many reports of it are stored
  -- as the space's threshold asks, and never for none; it is then pending and under review.
  pub report-holds :
      (reason : Option Text) (w : World F) (rp : ReviewPost) (n : ℕ) (p q : PostRow)
      → joined w post ≡ some rp
      → find_post w.posts post ≡ some p
      → (report services post who reason now w).0 ≡ ok (held n)
      → find_post (report services post who reason now w).1.posts post ≡ some q
      → let w' = (report services post who reason now w).1 in
        (p.state ≡ PostState.visible)
        × (max (from_config F services.parse_policy rp.space_config).report_threshold 1 ≤ n)
        × (n ≡ count_signals rp.id w'.signals)
        × (q.state ≡ PostState.pending)
        × (awaits_human w'.reviews p ≡ true)
  report-holds reason w rp n p q found row h row' =
      let (was, reached, counted, now_pending, queued) = (report-parts reason w rp found).0 n h in
      (
        sym (joined-find_post w post rp p found row).0 ∙ was,
        reached,
        counted,
        now_pending q row',
        queued p row,
      )

  -- However often people report, no person is counted twice about one post.
  pub report-IsDistinct :
      (reason : Option Text) (w : World F) (rp : ReviewPost)
      → joined w post ≡ some rp
      → IsDistinct w.signals
      → IsDistinct (report services post who reason now w).1.signals
  report-IsDistinct reason w rp found = (report-parts reason w rp found).1
