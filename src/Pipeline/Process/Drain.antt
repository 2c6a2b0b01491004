-- ===== src/Pipeline/Process/Drain.antt =====
-- `drain` of crates/core/src/moderation/pipeline.rs: one post's failure does not stop the sweep.
use notespace.Base.{ℕ, ◌-◌, List, [], ◌∷◌, map, Result, ok, err, ◌≡◌, refl, ap, sym, ◌⊎◌, inl, inr}
use notespace.Model.{PublicId, Timestamp}
use notespace.Float.{Float}
use notespace.Store.{StoreError, World, M, handle, bind, resume}
use notespace.Store.Queries.{pending_posts}
use notespace.Pipeline.{Services, Processed, sweep_grace_ms}
use notespace.Pipeline.Process.{process_post, process_all, drain}

abbrev pub Reports : Type 0
Reports = List (PublicId × Result StoreError Processed)

abbrev pub reported : Reports → List PublicId
reported rs = map (λ r. r.0) rs

module _ {F : Float} (services : Services F) (now : Timestamp) where
  resume-ok :
      {A B : Type 0} (k : A → M F B) (r : Result StoreError A × World F) (a : A)
      → r.0 ≡ ok a
      → resume k r ≡ k a r.1
  unfolding resume
  resume-ok k (ok b, w) a e = let same : b ≡ a = cc in ap (λ c. k c w) same
  resume-ok k (err b, w) a e = cc

  process_all-reported :
      (ids : List PublicId) (w : World F)
      → (rs : Reports) × ((process_all services now ids w).0 ≡ ok rs) × (reported rs ≡ ids)
  unfolding process_all handle bind
  process_all-reported [] w = ([], refl, refl)
  process_all-reported (id ∷ ids) w =
      let (result, w') = process_post services id [] now w in
      let (rs, e, same) = process_all-reported ids w' in
      (
        (id, result) ∷ rs,
        ap (λ r. r.0) (resume-ok _ (process_all services now ids w') rs e),
        ap (◌∷◌ id) same,
      )

  ends :
      (r : Result StoreError (List PublicId) × World F)
      → ((e : StoreError) × (r.0 ≡ err e) × ((resume (process_all services now) r).0 ≡ err e))
        ⊎ ((rs : Reports) × (r.0 ≡ ok (reported rs))
            × ((resume (process_all services now) r).0 ≡ ok rs))
  unfolding resume
  ends (err e, w) = inl (e, refl, refl)
  ends (ok ids, w) = let (rs, e, same) = process_all-reported ids w in inr (rs, ap ok (sym same), e)

  -- A sweep whose query fails returns that error; any other returns, in order, a result for
  -- exactly the posts that the query selected, whichever calls failed for single posts.
  pub drain-reported :
      (limit : ℕ) (w : World F)
      → ((e : StoreError) × ((pending_posts (now - sweep_grace_ms) limit w).0 ≡ err e)
          × ((drain services now limit w).0 ≡ err e))
        ⊎ ((rs : Reports) × ((pending_posts (now - sweep_grace_ms) limit w).0 ≡ ok (reported rs))
            × ((drain services now limit w).0 ≡ ok rs))
  unfolding drain bind
  drain-reported limit w = ends (pending_posts (now - sweep_grace_ms) limit w)
