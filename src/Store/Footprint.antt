-- ===== src/Store/Footprint.antt =====
-- What a store's calls leave alone, whichever of them the environment makes fail.
use notespace.Base.{
  Bool, true, false, List, [], ◌∷◌, ◌++◌, map, Result, ok, err, if◌then◌else◌, ◌≡◌, refl, sym, ap,
  ◌∙◌, append_assoc, arith,
}
use notespace.Model.{PublicId, PostState}
use notespace.Float.{Float}
use notespace.Store.{
  PostRow, NewAction, World, M, StoreError, transaction, bind, handle, resume, spend, struck,
}
use notespace.Store.Moderation.{update_posts, is_post}

-- The row of the post without its state, the one column that moderation writes; other rows whole.
abbrev pub mask : PublicId → PostRow → PostRow
mask post p = if is_post post p then record p { state = PostState.visible } else p

-- The step from one world to the next touches no post but `post`, and of that only the state; it
-- keeps all rows of the log and adds newer ones; it leaves spaces and users alone.
pub record Footprint {F : Float} (post : PublicId) (w w' : World F) : Type 0 where
  pub log_grows : (rows : List (NewAction F)) × (w'.log ≡ rows ++ w.log)
  pub masked : map (mask post) w'.posts ≡ map (mask post) w.posts
  pub spaces : w'.spaces ≡ w.spaces
  pub users : w'.users ≡ w.users

module _ {F : Float} (post : PublicId) where
  pub Footprint-refl : (w : World F) → Footprint post w w
  Footprint-refl w = record { log_grows = ([], refl); masked = refl; spaces = refl; users = refl }

  pub Footprint-trans :
      {u v w : World F} → Footprint post u v → Footprint post v w → Footprint post u w
  Footprint-trans {u} {v} {w} f g =
      let (rows, e) = f.log_grows in
      let (newer, d) = g.log_grows in
      record {
        log_grows = (newer ++ rows, d ∙ ap (◌++◌ newer) e ∙ sym (append_assoc newer rows u.log));
        masked = g.masked ∙ f.masked;
        spaces = g.spaces ∙ f.spaces;
        users = g.users ∙ f.users;
      }

  -- Every run of the call, failures included, has the footprint.
  abbrev pub Keeps : {A : Type 0} → M F A → Type 0
  Keeps m = (w : World F) → Footprint post w (m w).1

  resume-Keeps :
      {A B : Type 0} (k : A → M F B) (u : World F) (r : Result StoreError A × World F)
      → Footprint post u r.1
      → ((a : A) → Keeps (k a))
      → Footprint post u (resume k r).1
  unfolding resume
  resume-Keeps k u (ok a, w) f h = Footprint-trans f (h a w)
  resume-Keeps k u (err e, w) f h = f

  pub if-Footprint :
      {A : Type 0} (u : World F) (b : Bool) (r s : A × World F)
      → Footprint post u r.1
      → Footprint post u s.1
      → Footprint post u (if b then r else s).1
  if-Footprint u true r s f g = f
  if-Footprint u false r s f g = g

  pub if-Keeps :
      {A : Type 0} (b : Bool) (m n : M F A) → Keeps m → Keeps n → Keeps (if b then m else n)
  if-Keeps true m n f g = f
  if-Keeps false m n f g = g

  pub bind-Keeps :
      {A B : Type 0} (m : M F A) (k : A → M F B)
      → Keeps m
      → ((a : A) → Keeps (k a))
      → Keeps (bind m k)
  unfolding bind
  bind-Keeps m k f h w = resume-Keeps k w (m w) (f w) h

  pub handle-Keeps :
      {A B : Type 0} (m : M F A) (k : Result StoreError A → M F B)
      → Keeps m
      → ((r : Result StoreError A) → Keeps (k r))
      → Keeps (handle m k)
  unfolding handle
  handle-Keeps m k f h w = Footprint-trans (f w) (h (m w).0 (m w).1)

  pub transaction-Keeps : {A : Type 0} (call : M F A) → Keeps call → Keeps (transaction call)
  unfolding transaction
  transaction-Keeps call f w =
      let g = f (spend w) in
      if-Footprint w (struck w.faults) _ _
        (record { log_grows = ([], refl); masked = refl; spaces = refl; users = refl })
        (record { log_grows = g.log_grows; masked = g.masked; spaces = g.spaces; users = g.users })

pub masked-update :
    (posts : List PostRow) (post : PublicId) (state : PostState)
    → map (mask post) (update_posts posts post state) ≡ map (mask post) posts
unfolding update_posts
masked-update [] post state = refl
masked-update (p ∷ posts) post state = ground (arith, masked-update posts post state)
