-- ===== src/Edit/Examples.antt =====
-- A moderator deletes a post on the site of Pipeline/Site.
use notespace.Base.{[], ok, ◌≡◌, refl, text_eq}
use notespace.Float.{centi}
use notespace.Model.{PostState, Role}
use notespace.Store.{World, bind, handle, transaction}
use notespace.Store.Moderation.{post_for_review, set_post_state, log_action, joined, find_post}
use notespace.Pipeline.Site.{site, post_id, person}
use notespace.Edit.{delete, deleted}
use notespace.Edit.Deletion.{Deletes, delete-Deletes}

abbrev before : World centi
before = site PostState.visible [] [] []

delete_test : (delete post_id (person 9 Role.moderator) 200 before).0 ≡ ok deleted
unfolding delete post_for_review find_post bind handle transaction log_action set_post_state joined
    text_eq
delete_test = refl

delete-Deletes_example :
    Deletes post_id
      (person 9 Role.moderator)
      200
      before
      (delete post_id (person 9 Role.moderator) 200 before).1
delete-Deletes_example = delete-Deletes post_id (person 9 Role.moderator) 200 before
