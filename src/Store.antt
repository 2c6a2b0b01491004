-- ===== src/Store.antt =====
-- The tables of migrations/ that moderation reads and writes, and the monad of a store's calls
-- (crates/core/src/store.rs). One connection runs one call at a time; each call is one
-- transaction, which an environment may make fail as a whole.
pub mod Moderation
pub mod Queries
pub mod Writing
pub mod Threads
pub mod Steady
pub mod Footprint
pub mod Runs
use notespace.Base.{
  ℕ, Bool, false, Text, List, [], ◌∷◌, drop, Option, Result, ok, err, if◌then◌else◌,
}
use notespace.Model.{PublicId, Timestamp, PostState, ThreadState, ThreadKind, Role}
use notespace.Float.{Float}
use notespace.RateLimit.{Attempts}
use notespace.Moderation.{
  Category, Call, Verdict, ActorKind, ReviewReason, Resolution, Reason, ClassifyError,
}

pub data StoreError : Type 0 where
  not_found : StoreError
  corrupt backend : Text → StoreError
  conflict : StoreError
  too_deep : ℕ → StoreError

pub record PostRow : Type 0 where
  pub id : ℕ
  pub public_id : PublicId
  pub thread_id : ℕ
  pub author_id : ℕ
  pub body_md : Text
  pub created_at : Timestamp
  pub state : PostState
  pub parent_id : Option ℕ
  pub path : Text
  pub edited_at : Option Timestamp

pub record ThreadRow : Type 0 where
  pub id : ℕ
  pub public_id : PublicId
  pub space_id : ℕ
  pub space_path : Text
  pub kind : ThreadKind
  pub title : Text
  pub url : Option Text
  pub author_id : ℕ
  pub created_at : Timestamp
  pub state : ThreadState
  pub cache_version : ℕ
  pub post_count : ℕ
  pub bumped_at : Timestamp

pub record SpaceRow : Type 0 where
  pub id : ℕ
  pub path : Text
  pub name : Text
  pub config : Text

pub record UserRow : Type 0 where
  pub id : ℕ
  pub name : Text
  pub created_at : Timestamp
  pub role : Role

pub record ReviewRow (F : Float) : Type 0 where
  pub id : ℕ
  pub post_id : ℕ
  pub space_id : ℕ
  pub reason : ReviewReason
  pub model_verdict : Option Call
  pub model_confidence : Option F.Value
  pub model_categories : Option (List Category)
  pub appeal_text : Option Text
  pub opened_at : Timestamp
  -- `state = 'open'`; the other state is 'resolved'.
  pub is_open : Bool
  pub resolution : Option Resolution
  pub resolved_by : Option ℕ
  pub resolved_at : Option Timestamp

pub record SignalRow : Type 0 where
  pub post_id : ℕ
  pub user_id : ℕ
  pub reason : Option Text
  pub created_at : Timestamp

pub data TargetKind : Type 0 where
  post thread user space : TargetKind

-- The literals of the `action` column.
pub data Action : Type 0 where
  hold publish hide restore classify classify_failed report approve reject appeal edit delete :
      Action

-- The JSON of the `detail` column, by the shapes that the code writes.
pub data Detail (F : Float) : Type 0 where
  nothing : Detail F
  reasons : List Reason → Detail F
  report_count : ℕ → Detail F
  why : Text → Detail F
  failure : Text → ClassifyError → Detail F
  verdict : Verdict F → Detail F
  ruling : ℕ → ReviewReason → Option Call → Option Bool → Detail F
  was : PostState → Detail F
  from_to : PostState → PostState → Detail F

pub record NewAction (F : Float) : Type 0 where
  pub actor_kind : ActorKind
  pub actor_id : Option ℕ
  pub actor_name : Text
  pub target_kind : TargetKind
  pub target_id : ℕ
  pub action : Action
  pub detail : Detail F
  pub is_public : Bool
  pub created_at : Timestamp

-- The log has its newest row first. `sent` is what a queue was told; `faults` says which of the
-- coming calls the environment makes fail, and none fail after its end.
pub record World (F : Float) : Type 0 where
  pub posts : List PostRow
  pub threads : List ThreadRow
  pub spaces : List SpaceRow
  pub users : List UserRow
  pub reviews : List (ReviewRow F)
  pub signals : List SignalRow
  -- The table `login_attempt`, by its key.
  pub attempts : List (Text × Attempts)
  pub log : List (NewAction F)
  pub sent : List (PublicId × List Reason)
  pub faults : List Bool

-- `StoreResult<A>` of a call, and the tables after it.
abbrev pub M : Float → Type 0 → Type 0
M F A = World F → Result StoreError A × World F

-- What a call that fails reports.
abbrev pub outage : StoreError
outage = backend []

abbrev pub struck : List Bool → Bool
struck [] = false
struck (b ∷ bs) = b

module _ {F : Float} where
  abbrev pub return : {A : Type 0} → A → M F A
  return a w = (ok a, w)

  abbrev pub throw : {A : Type 0} → StoreError → M F A
  throw e w = (err e, w)

  unfoldable pub resume :
      {A B : Type 0} → (A → M F B) → Result StoreError A × World F → Result StoreError B × World F
  resume k (ok a, w) = k a w
  resume k (err e, w) = (err e, w)

  -- `call.await?` and the rest of the body.
  unfoldable pub bind : {A B : Type 0} → M F A → (A → M F B) → M F B
  unfolding resume
  bind m k w = resume k (m w)

  infixl 5 ◌>>=◌ ◌>>◌
  abbrev pub ◌>>=◌ : {A B : Type 0} → M F A → (A → M F B) → M F B
  ◌>>=◌ m k = bind m k

  abbrev pub ◌>>◌ : {A B : Type 0} → M F A → M F B → M F B
  ◌>>◌ m k = bind m (λ _. k)

  -- `match call.await { … }`, with the arms as a function of the result.
  unfoldable pub handle : {A B : Type 0} → M F A → (Result StoreError A → M F B) → M F B
  handle m k w = let r = m w in k r.0 r.1

  abbrev pub spend : World F → World F
  spend w = record w { faults = drop 1 w.faults }

  -- A call of the store: it fails without effect, or runs.
  unfoldable pub transaction : {A : Type 0} → M F A → M F A
  transaction call w = if struck w.faults then (err outage, spend w) else call (spend w)
