-- ===== src/Store/Runs.antt =====
-- How a property of every run of a body is shown: one case for each end of its first call.
use notespace.Base.{Bool, true, false, Result, ok, err, if◌then◌else◌, ◌≡◌, refl}
use notespace.Float.{Float}
use notespace.Store.{
  World, return, M, StoreError, outage, resume, bind, handle, spend, struck, transaction,
}

module _ {F : Float} {B : Type 0} (P : Result StoreError B × World F → Type 0) where
  resume-if :
      {A : Type 0} (k : A → M F B) (b : Bool) (r s : Result StoreError A × World F)
      → P (resume k r)
      → P (resume k s)
      → P (resume k (if b then r else s))
  resume-if k true r s p q = p
  resume-if k false r s p q = q

  pub bind-cases :
      {A : Type 0} (call : M F A) (k : A → M F B) (w : World F)
      → P (err outage, spend w)
      → P (resume k (call (spend w)))
      → P (bind (transaction call) k w)
  unfolding bind transaction
  bind-cases call k w p q = resume-if k (struck w.faults) _ _ p q

  handle-if :
      {A : Type 0} (k : Result StoreError A → M F B) (b : Bool)
      (r s : Result StoreError A × World F)
      → P (k r.0 r.1)
      → P (k s.0 s.1)
      → let t = if b then r else s in P (k t.0 t.1)
  handle-if k true r s p q = p
  handle-if k false r s p q = q

  pub handle-cases :
      {A : Type 0} (call : M F A) (k : Result StoreError A → M F B) (w : World F)
      → P (k (err outage) (spend w))
      → (let r = call (spend w) in P (k r.0 r.1))
      → P (handle (transaction call) k w)
  unfolding handle transaction
  handle-cases call k w p q = handle-if k (struck w.faults) _ _ p q

  pub if-cases :
      (b : Bool) (m n : M F B) (w : World F)
      → (b ≡ true → P (m w))
      → (b ≡ false → P (n w))
      → P ((if b then m else n) w)
  if-cases true m n w p q = p refl
  if-cases false m n w p q = q refl

  pub bind-if :
      {A : Type 0} (b : Bool) (m n : M F A) (k : A → M F B) (w : World F)
      → P (bind m k w)
      → P (bind n k w)
      → P (bind (if b then m else n) k w)
  bind-if true m n k w p q = p
  bind-if false m n k w p q = q

  pub bind-return :
      {A : Type 0} (a : A) (k : A → M F B) (w : World F) → P (k a w) → P (bind (return a) k w)
  unfolding bind resume
  bind-return a k w p = p

  resume-map :
      {A C : Type 0} (f : A → C) (k : C → M F B) (r : Result StoreError A × World F)
      → P (resume (λ a. k (f a)) r)
      → P (resume k (resume (λ a. return (f a)) r))
  unfolding resume
  resume-map f k (ok a, w) p = p
  resume-map f k (err e, w) p = p

  -- A call whose result is only translated.
  pub bind-map :
      {A C : Type 0} (m : M F A) (f : A → C) (k : C → M F B) (w : World F)
      → P (bind m (λ a. k (f a)) w)
      → P (bind (bind m (λ a. return (f a))) k w)
  unfolding bind
  bind-map m f k w p = resume-map f k (m w) p
