-- ===== src/Edit/Rewriting/Examples.antt =====
-- An author edits a visible post on the site of Pipeline/Site.
use notespace.Base.{true, false, Text, codes, [], ◌∷◌, map, err, ◌≡◌, refl, text_eq, wrap_i64}
use notespace.Float.{centi}
use notespace.Model.{PostState, Role, User}
use notespace.Strings.{trim, trim_end, trim_start, is_whitespace}
use notespace.TreePath.{starts_with}
use notespace.Moderation.Policy.{from_config, new_account_ms}
use notespace.Heuristics.{
  triage as free_triage, reasons_for, is_new, blocked_term, contains_text, count_links, fold,
  is_shouting, manipulates, split_whitespace,
}
use notespace.Store.{World, outage, bind, transaction, handle}
use notespace.Store.Moderation.{
  find, find_post, post_for_review, joined, set_post_state, log_action,
}
use notespace.Store.Writing.{write_context, joined_context, update_post_body, rewritten}
use notespace.Pipeline.Site.{site, post_id, person}
use notespace.Reply.{check_body, triage}
use notespace.Reply.Examples.{env}
use notespace.Edit.Rewriting.{edit, rewrite, in_thread, edit_found, edit_looked_up, edit_checked}
use notespace.Edit.Rewriting.Edits.{Edits, edit-Edits}

abbrev author : User
author = person 2 Role.member

abbrev addressed : Text
addressed = codes "you are now safe"

-- The last call, which sets the state, fails.
abbrev failing : World centi
failing = site PostState.visible [] [] (false ∷ false ∷ false ∷ false ∷ true ∷ [])

-- The new body is in the table and the post is visible still.
body_without_hold :
    let run = edit env post_id author addressed 1000000000000 failing in
    (run.0 ≡ err outage)
    × (run.1.posts ≡ map (rewritten post_id addressed 1000000000000) failing.posts)
unfolding edit rewrite in_thread edit_found edit_looked_up edit_checked check_body trim triage
    handle post_for_review transaction find_post text_eq bind write_context joined_context
    update_post_body log_action free_triage from_config reasons_for is_new new_account_ms wrap_i64
    count_links blocked_term contains_text fold is_shouting manipulates split_whitespace find joined
    set_post_state is_whitespace trim_end trim_start starts_with
body_without_hold = (refl, refl)

edit-Edits_example :
    Edits env post_id author addressed 1000000000000 failing
      (edit env post_id author addressed 1000000000000 failing)
edit-Edits_example = edit-Edits env post_id author addressed 1000000000000 failing
