-- ===== src/Pipeline/Examples.antt =====
-- The steps of crates/core/src/moderation/pipeline.rs on the site of Pipeline/Site.
use notespace.Base.{
  ◌-◌, err, ◌≤◌, true, false, codes, [], none, some, ok, ◌≡◌, ◌⊎◌, refl, max, text_eq,
}
use notespace.Strings.{trim}
use notespace.Model.{PostState, Role}
use notespace.Float.{centi}
use notespace.Moderation.{Resolution, disagreement_rate}
use notespace.Moderation.Policy.{from_config, effective, decide}
use notespace.Store.{World, StoreError, transaction, bind, handle}
use notespace.Store.Footprint.{Footprint}
use notespace.Store.Moderation.{
  ReviewPost, ReviewItem, find_post, joined, review_by_id, post_for_review, set_post_state,
  update_posts, log_action, open_review, resolve_review, add_report, count_signals,
}
use notespace.Store.Queries.{is_due, awaits_human, agreement, pending_posts}
use notespace.Pipeline.{sweep_grace_ms, hidden, held, filed, resolved, tell}
use notespace.Pipeline.Process.{process_post, drain}
use notespace.Pipeline.Process.Footprint.{process_post-Keeps}
use notespace.Pipeline.Process.Drain.{Reports, reported, drain-reported}
use notespace.Pipeline.Process.Logged.{LogsFirst, process_post-LogsFirst}
use notespace.Pipeline.Process.Settled.{process_post-settles}
use notespace.Pipeline.People.{report, review, appeal}
use notespace.Pipeline.People.Rulings.{Unmoved, here, ruled, review-Unmoved, review-once}
use notespace.Pipeline.People.Reports.{IsDistinct, report-holds, report-IsDistinct}
use notespace.Pipeline.People.Appeals.{MayAppeal, appeal-filed}
use notespace.Pipeline.Site.{
  hateful, services, post_id, row, site, joined_row, person, pending_site, reported_site,
  hidden_site, failing_site,
}

joined_test : (state : PostState) → joined (site state [] [] []) post_id ≡ some (joined_row state)
unfolding joined find_post text_eq
joined_test state = refl

process_post_test : (process_post services post_id [] 200 pending_site).0 ≡ ok hidden
unfolding process_post post_for_review find_post bind transaction log_action agreement effective
    decide from_config set_post_state open_review joined text_eq disagreement_rate
process_post_test = refl

process_post-Keeps_example :
    Footprint post_id failing_site (process_post services post_id [] 200 failing_site).1
process_post-Keeps_example = process_post-Keeps services post_id [] 200 failing_site

process_post-LogsFirst_example :
    LogsFirst services post_id 200
      (joined_row PostState.pending)
      (ok hateful)
      failing_site
      (process_post services post_id [] 200 failing_site).1
process_post-LogsFirst_example =
    process_post-LogsFirst services post_id 200 [] failing_site (joined_row PostState.pending)
      (unfold joined find_post text_eq in refl) (unfold from_config in refl)

process_post-settles_example :
    is_due (process_post services post_id [] 200 pending_site).1 900 (row PostState.hidden) ≡ false
process_post-settles_example =
    process_post-settles services post_id 200 [] pending_site hidden (row PostState.hidden) 900
      process_post_test
      (unfold process_post post_for_review find_post bind transaction log_action agreement effective
          decide from_config set_post_state open_review joined text_eq disagreement_rate
          update_posts in
        refl)

report_test :
    (report services post_id (person 9 Role.member) none 200 reported_site).0 ≡ ok (held 3)
unfolding report post_for_review find_post bind transaction log_action add_report from_config
    set_post_state open_review tell joined text_eq
report_test = refl

report-holds_example :
    let w' = (report services post_id (person 9 Role.member) none 200 reported_site).1 in
    (PostState.visible ≡ PostState.visible)
    × (max 3 1 ≤ 3)
    × (3 ≡ count_signals 7 w'.signals)
    × (PostState.pending ≡ PostState.pending)
    × (awaits_human w'.reviews (row PostState.visible) ≡ true)
unfolding from_config
report-holds_example =
    report-holds services post_id (person 9 Role.member) 200 none reported_site
      (joined_row PostState.visible) 3 (row PostState.visible) (row PostState.pending)
      (unfold joined find_post text_eq in refl) (unfold find_post text_eq in refl) report_test
      (unfold report post_for_review find_post bind transaction log_action add_report from_config
          set_post_state open_review tell joined text_eq update_posts in
        refl)

report-IsDistinct_example :
    IsDistinct (report services post_id (person 9 Role.member) none 200 reported_site).1.signals
report-IsDistinct_example =
    report-IsDistinct services post_id (person 9 Role.member) 200 none reported_site
      (joined_row PostState.visible) (unfold joined find_post text_eq in refl) (refl, (refl, tt))

review-Unmoved_example :
    Unmoved hidden_site (review 1 (person 9 Role.member) Resolution.approve 200 hidden_site).1
    ⊎ ((false ≡ true)
        × (item : ReviewItem centi) × (review_by_id hidden_site 1 ≡ some item)
        × (item.resolved ≡ false))
review-Unmoved_example = review-Unmoved 1 (person 9 Role.member) Resolution.approve 200 hidden_site

review_test :
    (review 1 (person 9 Role.moderator) Resolution.approve 200 hidden_site).0
    ≡ ok (resolved post_id PostState.visible (some false))
unfolding review resolve_review find_post bind transaction log_action set_post_state review_by_id
    text_eq
review_test = refl

abbrev ruled_site : World centi
ruled_site = (review 1 (person 9 Role.moderator) Resolution.approve 200 hidden_site).1

abbrev twice_ruled : World centi
twice_ruled = (review 1 (person 11 Role.admin) Resolution.reject 250 ruled_site).1

review-once_example :
    Unmoved twice_ruled (review 1 (person 10 Role.admin) Resolution.reject 300 twice_ruled).1
review-once_example =
    review-once 1 (person 9 Role.moderator) (person 10 Role.admin) Resolution.approve
      Resolution.reject 200 300 hidden_site {v = twice_ruled} post_id PostState.visible (some false)
      review_test (ruled 1 (person 11 Role.admin) Resolution.reject 250 here)

appeal_test : (appeal post_id (person 2 Role.member) (codes " why ") 200 hidden_site).0 ≡ ok filed
unfolding appeal post_for_review find_post bind handle transaction log_action open_review joined
    text_eq trim
appeal_test = refl

appeal-filed_example :
    (rp : ReviewPost) × (joined hidden_site post_id ≡ some rp)
    × MayAppeal (person 2 Role.member) (codes " why ") rp
    × (awaits_human
          (appeal post_id (person 2 Role.member) (codes " why ") 200 hidden_site).1.reviews
          (row PostState.hidden)
        ≡ true)
appeal-filed_example =
    appeal-filed post_id (person 2 Role.member) (codes " why ") 200 hidden_site
      (row PostState.hidden) (unfold find_post text_eq in refl) appeal_test

drain-reported_example :
    ((e : StoreError) × ((pending_posts (90000 - sweep_grace_ms) 10 failing_site).0 ≡ err e)
      × ((drain services 90000 10 failing_site).0 ≡ err e))
    ⊎ ((rs : Reports) × ((pending_posts (90000 - sweep_grace_ms) 10 failing_site).0
          ≡ ok (reported rs))
        × ((drain services 90000 10 failing_site).0 ≡ ok rs))
drain-reported_example = drain-reported services 90000 10 failing_site
