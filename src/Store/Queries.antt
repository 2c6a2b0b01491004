-- ===== src/Store/Queries.antt =====
-- The moderation queries of crates/store-sqlite/src/lib.rs that only read, by their SQL.
pub mod Due
use notespace.Base.{
  ℕ, suc, Bool, true, false, not, ◌&&◌, List, [], ◌∷◌, map, Option, some, ok, if◌then◌else◌, ltb,
  leb, ◌==◌, any, take,
}
use notespace.Model.{PublicId, Timestamp, PostState, post_state_eq}
use notespace.Float.{Float}
use notespace.Moderation.{Call, Resolution, AgreementStats}
use notespace.Store.{PostRow, ReviewRow, World, M, transaction}

-- The two diagonals of `AGREEMENT`, over what the model called and what the human ruled.
abbrev pub agrees : Option Call → Option Resolution → Bool
agrees (some Call.clean) (some Resolution.approve) = true
agrees (some Call.flag) (some Resolution.reject) = true
agrees _ _ = false

abbrev pub disagrees : Option Call → Option Resolution → Bool
disagrees (some Call.clean) (some Resolution.reject) = true
disagrees (some Call.flag) (some Resolution.approve) = true
disagrees _ _ = false

-- The posts of a sorted list keep their order before one of the same time.
abbrev insert_by_time : PostRow → List PostRow → List PostRow
insert_by_time p [] = p ∷ []
insert_by_time p (q ∷ ps) =
    let rest = insert_by_time p ps in if leb p.created_at q.created_at then p ∷ q ∷ ps else q ∷ rest

sort_by_time : List PostRow → List PostRow
sort_by_time [] = []
sort_by_time (p ∷ ps) = insert_by_time p (sort_by_time ps)

select : (PostRow → Bool) → List PostRow → List PostRow
select test [] = []
select test (p ∷ ps) = let rest = select test ps in if test p then p ∷ rest else rest

module _ {F : Float} where
  -- `WHERE space_id = ?1 AND state = 'resolved'`; without a verdict a row is on neither diagonal.
  counts : (Option Call → Option Resolution → Bool) → ℕ → List (ReviewRow F) → ℕ
  counts diagonal space [] = 0
  counts diagonal space (r ∷ rows) =
      let rest = counts diagonal space rows in
      if r.space_id == space && not r.is_open && diagonal r.model_verdict r.resolution
      then suc rest
      else rest

  unfoldable pub agreement : ℕ → M F AgreementStats
  unfolding counts
  agreement space = transaction (λ w. (
    ok (record {
      agreed = counts agrees space w.reviews;
      disagreed = counts disagrees space w.reviews;
    }),
    w,
  ))

  unfoldable pub awaits_human : List (ReviewRow F) → PostRow → Bool
  awaits_human reviews p = any (λ r. r.post_id == p.id && r.is_open) reviews

  unfoldable pub is_due : World F → Timestamp → PostRow → Bool
  unfolding awaits_human
  is_due w older_than p =
      post_state_eq p.state PostState.pending
      && ltb p.created_at older_than
      && not (awaits_human w.reviews p)

  unfoldable pub pending_posts : Timestamp → ℕ → M F (List PublicId)
  unfolding select is_due awaits_human sort_by_time
  pending_posts older_than limit = transaction (λ w. (
    ok (take limit (map (λ p. p.public_id) (sort_by_time (select (is_due w older_than) w.posts)))),
    w,
  ))
