-- ===== src/Pipeline/People/Appeals.antt =====
-- `appeal` of crates/core/src/moderation/pipeline.rs: an appeal asks, and changes no ruling.
use notespace.Base.{
  true, false, not, Text, some, Result, ok, ◌≡◌, ◌≤◌, refl, arith, ltb, length, ◌==◌, ltb-false→le,
  ==→eq,
}
use notespace.Strings.{is_empty, trim}
use notespace.Model.{PublicId, Timestamp, PostState, User, post_state_eq}
use notespace.Float.{Float}
use notespace.Store.{StoreError, World, PostRow, spend}
use notespace.Store.Runs.{if-cases}
use notespace.Store.Moderation.{ReviewPost, find_post, joined}
use notespace.Store.Queries.{awaits_human}
use notespace.Store.Queries.Due.{awaits_human-upsert}
use notespace.Store.Moderation.Runs.{
  post_for_review-handled, open_review-cases, log_action-cases, joined-find_post,
}
use notespace.Pipeline.{AppealOutcome, filed, max_appeal_chars}
use notespace.Pipeline.People.{appeal, file_appeal}

-- What must hold of a post for the appeal to be filed.
pub record MayAppeal (author : User) (text : Text) (rp : ReviewPost) : Type 0 where
  pub own : rp.author_id ≡ author.id
  pub is_hidden : rp.state ≡ PostState.hidden
  pub written : is_empty (trim text) ≡ false
  pub short : length (trim text) ≤ max_appeal_chars

module _ {F : Float} where
  -- The posts are as they were, and a filed appeal met the conditions and has an open review.
  abbrev pub Appealed :
      PublicId → User → Text → World F → Result StoreError AppealOutcome × World F → Type 0
  Appealed post author text w (result, w') =
      (w'.posts ≡ w.posts)
      × (result ≡ ok filed
          → (rp : ReviewPost) × (joined w post ≡ some rp)
            × MayAppeal author text rp
            × ((p : PostRow) → find_post w.posts post ≡ some p → awaits_human w'.reviews p ≡ true))

  file_appeal-Appealed :
      (post : PublicId) (author : User) (text : Text) (now : Timestamp) (w u : World F)
      (rp : ReviewPost)
      → joined w post ≡ some rp
      → is_empty (trim text) ≡ false
      → ltb max_appeal_chars (length (trim text)) ≡ false
      → u.posts ≡ w.posts
      → Appealed post author text w (file_appeal author (trim text) now rp u)
  unfolding file_appeal
  file_appeal-Appealed post author text now w u rp found some_text fits same =
      let P = λ (r : Result StoreError AppealOutcome × World F). Appealed post author text w r in
      if-cases P (not (rp.author_id == author.id)) _ _ u (λ e. (same, λ h. cc))
        (λ mine.
          if-cases P (not (post_state_eq rp.state PostState.hidden)) _ _ u (λ e. (same, λ h. cc))
            (λ hid.
              open_review-cases P _ _ u (same, λ h. cc)
                (λ n.
                  log_action-cases P _ _ _ (same, λ h. cc)
                    (λ m. (
                      same,
                      λ h. (
                        rp,
                        found,
                        record {
                          own = ground (arith, ==→eq rp.author_id author.id);
                          is_hidden = ground arith;
                          written = some_text;
                          short = ltb-false→le _ _ fits;
                        },
                        λ p f.
                            awaits_human-upsert n _ u.reviews p
                              (joined-find_post w post rp p found f).1,
                      ),
                    )))))

  appeal-Appealed :
      (post : PublicId) (author : User) (text : Text) (now : Timestamp) (w : World F)
      → Appealed post author text w (appeal post author text now w)
  unfolding appeal
  appeal-Appealed post author text now w =
      let P = λ (r : Result StoreError AppealOutcome × World F). Appealed post author text w r in
      if-cases P (is_empty (trim text)) _ _ w (λ e. (refl, λ h. cc))
        (λ some_text.
          if-cases P (ltb max_appeal_chars (length (trim text))) _ _ w (λ e. (refl, λ h. cc))
            (λ fits.
              post_for_review-handled P post _ w (refl, λ h. cc) (refl, λ h. cc)
                (λ rp found.
                  file_appeal-Appealed post author text now w (spend w) rp found some_text fits
                    refl)))

  -- An appeal, filed or not, changes no post: the ruling stands until a person decides.
  pub appeal-posts :
      (post : PublicId) (author : User) (text : Text) (now : Timestamp) (w : World F)
      → (appeal post author text now w).1.posts ≡ w.posts
  appeal-posts post author text now w = (appeal-Appealed post author text now w).0

  -- An appeal that is filed is by the author, about a hidden post, with a text of at most 2000
  -- characters that is not blank, and leaves the post with an open review.
  pub appeal-filed :
      (post : PublicId) (author : User) (text : Text) (now : Timestamp) (w : World F) (p : PostRow)
      → find_post w.posts post ≡ some p
      → (appeal post author text now w).0 ≡ ok filed
      → (rp : ReviewPost) × (joined w post ≡ some rp)
        × MayAppeal author text rp
        × (awaits_human (appeal post author text now w).1.reviews p ≡ true)
  appeal-filed post author text now w p row h =
      let (rp, found, may, queued) = (appeal-Appealed post author text now w).1 h in
      (rp, found, may, queued p row)
