-- ===== src/Store/Steady.antt =====
-- What a run of calls leaves as it was, for any part of the tables.
use notespace.Base.{Bool, true, false, Result, ok, err, if◌then◌else◌, ◌≡◌, refl, ◌∙◌}
use notespace.Float.{Float}
use notespace.Store.{World, M, StoreError, transaction, bind, handle, resume, spend, struck}

module _ {F : Float} {X : Type 0} (view : World F → X)
    (spent : (w : World F) → view (spend w) ≡ view w) where
  abbrev pub Steady : {A : Type 0} → M F A → Type 0
  Steady m = (w : World F) → view (m w).1 ≡ view w

  resume-Steady :
      {A B : Type 0} (k : A → M F B) (r : Result StoreError A × World F)
      → ((a : A) → Steady (k a))
      → view (resume k r).1 ≡ view r.1
  unfolding resume
  resume-Steady k (ok a, w) h = h a w
  resume-Steady k (err e, w) h = refl

  pub bind-Steady :
      {A B : Type 0} (m : M F A) (k : A → M F B)
      → Steady m
      → ((a : A) → Steady (k a))
      → Steady (bind m k)
  unfolding bind
  bind-Steady m k f h w = resume-Steady k (m w) h ∙ f w

  pub handle-Steady :
      {A B : Type 0} (m : M F A) (k : Result StoreError A → M F B)
      → Steady m
      → ((r : Result StoreError A) → Steady (k r))
      → Steady (handle m k)
  unfolding handle
  handle-Steady m k f h w = h (m w).0 (m w).1 ∙ f w

  pub if-Steady :
      {A : Type 0} (b : Bool) (m n : M F A) → Steady m → Steady n → Steady (if b then m else n)
  if-Steady true m n f g = f
  if-Steady false m n f g = g

  if-view :
      {A : Type 0} (b : Bool) (r s : A × World F) (x : X)
      → view r.1 ≡ x
      → view s.1 ≡ x
      → view (if b then r else s).1 ≡ x
  if-view true r s x f g = f
  if-view false r s x f g = g

  pub transaction-Steady : {A : Type 0} (call : M F A) → Steady call → Steady (transaction call)
  unfolding transaction
  transaction-Steady call f w =
      if-view (struck w.faults) _ _ (view w) (spent w) (f (spend w) ∙ spent w)
