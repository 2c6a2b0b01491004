-- ===== src/Reply/Calls.antt =====
-- The ends of the calls of crates/core/src/reply.rs, as cases of a run.
use notespace.Base.{
  [], ◌⊎◌, sym, ap, ok_inj, ℕ, Bool, true, false, ◌&&◌, Text, List, Option, none, some, Result, err,
  any, leb, ◌==◌, text_eq, if◌then◌else◌, pos, negsuc, ℤ, ◌-◌, is_pos, ◌≡◌, refl, ok, inl, inr,
  Bool-cases,
}
use notespace.Model.{PublicId, Timestamp}
use notespace.Float.{Float}
use notespace.RateLimit.{Attempts}
use notespace.Moderation.{Reason}
use notespace.Moderation.Policy.{ModerationPolicy, from_config, duplicate_window_ms}
use notespace.Heuristics as Heuristics
use notespace.Heuristics.{Triage, refuse, Refusal, Signals}
use notespace.Store.{outage, World, M, StoreError, PostRow, spend, return, bind, resume}
use notespace.Store.Runs.{bind-cases, bind-return, bind-map}
use notespace.Store.Moderation.{log_action}
use notespace.Store.Writing.{WriteContext, author_posted_recently, record_login_attempt}
use notespace.Store.Writing.Runs.{author_posted_recently-cases}
use notespace.Pipeline.{hold, tell}
use notespace.Reply.{Environment, to_reasons, signals_of, record_next, triage, duplicate_asked}

-- Whether the author has posted this body since the window began.
abbrev pub repeats : ℕ → Text → Timestamp → ℤ → List PostRow → Bool
repeats author body now (pos window) posts =
    is_pos (pos window)
    && any (λ p. p.author_id == author && leb (now - window) p.created_at && text_eq p.body_md body)
        posts
repeats author body now (negsuc n) posts = false

module _ {F : Float} (env : Environment F) where
  -- What the free checks say of a text in a context, where the duplicates of the body are searched
  -- among the posts.
  abbrev pub judgement :
      WriteContext → ℕ → Text → Text → Timestamp → List PostRow → Result Refusal (List Reason)
  judgement ctx author scanned body now posts =
      let policy = from_config F env.services.parse_policy ctx.space_config in
      let repeated = repeats author body now (duplicate_window_ms F policy) posts in
      to_reasons env
        (Heuristics.triage env.unicode F policy (signals_of env ctx scanned repeated now))

  -- The checks let the text through with these reasons to hold it, or publish it with none.
  abbrev pub Answered : Triage → List Reason → Type 0
  Answered answer reasons =
      ((answer ≡ Triage.publish) × (reasons ≡ [])) ⊎ (answer ≡ Triage.hold reasons)

  -- What the free checks answer to a text of the context's author, which repeats a post or not.
  abbrev pub Finds : WriteContext → Text → Bool → Timestamp → List Reason → Type 0
  Finds ctx text repeated now reasons =
      Answered
        (Heuristics.triage env.unicode F (from_config F env.services.parse_policy ctx.space_config)
          (record {
            body_md = text;
            author_created_at = ctx.author_created_at;
            author_role = ctx.author_role;
            is_duplicate = repeated;
            now = now;
          }))
        reasons

  to_reasons-Answered :
      (answer : Triage) (reasons : List Reason)
      → to_reasons env answer ≡ ok reasons
      → Answered answer reasons
  to_reasons-Answered Triage.publish reasons h = inl (refl, sym (ok_inj h))
  to_reasons-Answered (Triage.hold found) reasons h = inr (ap Triage.hold (ok_inj h))
  to_reasons-Answered (refuse why) reasons h = cc

  pub judgement-Finds :
      (ctx : WriteContext) (author : ℕ) (scanned body : Text) (now : Timestamp)
      (posts : List PostRow) {reasons : List Reason}
      → judgement ctx author scanned body now posts ≡ ok reasons
      → let policy = from_config F env.services.parse_policy ctx.space_config in
        Finds ctx scanned (repeats author body now (duplicate_window_ms F policy) posts) now reasons
  judgement-Finds ctx author scanned body now posts h = to_reasons-Answered _ _ h

  triage-unrepeated :
      (policy : ModerationPolicy F) (s : Signals) (reasons : List Reason)
      → to_reasons env (Heuristics.triage env.unicode F policy s) ≡ ok reasons
      → s.is_duplicate ≡ false
  unfolding Heuristics.triage
  triage-unrepeated policy s reasons h = elim (Bool-cases s.is_duplicate) [
    | inl repeated ↦
        let refused : to_reasons env (Heuristics.triage env.unicode F policy s)
            ≡ err Heuristics.duplicate =
          rw repeated refl in
        cc
    | inr fresh ↦ fresh
  ]

  -- A text that the checks let through repeats no recent post of its author.
  pub judgement-unrepeated :
      (ctx : WriteContext) (author : ℕ) (scanned body : Text) (now : Timestamp)
      (posts : List PostRow) {reasons : List Reason}
      → judgement ctx author scanned body now posts ≡ ok reasons
      → repeats author body now
          (duplicate_window_ms F (from_config F env.services.parse_policy ctx.space_config))
          posts
        ≡ false
  judgement-unrepeated ctx author scanned body now posts h = triage-unrepeated _ _ _ h

  module _ {B : Type 0} (P : Result StoreError B × World F → Type 0) where
    searched-cases :
        (b : Bool) (author : ℕ) (body : Text) (since : Timestamp) (k : Bool → M F B) (v : World F)
        → let found =
            b
            && any
                (λ p. p.author_id == author && leb since p.created_at && text_eq p.body_md body)
                v.posts in
          P (err outage, spend v)
          → P (k found v)
          → P (k found (spend v))
          → P (bind (if b then author_posted_recently author body since else return false) k v)
    searched-cases true author body since k v p q r =
        author_posted_recently-cases P author body since k v p r
    searched-cases false author body since k v p q r = bind-return P false k v q

    duplicate_asked-cases :
        (author : ℕ) (body : Text) (now : Timestamp) (window : ℤ) (k : Bool → M F B) (v : World F)
        → P (err outage, spend v)
        → P (k (repeats author body now window v.posts) v)
        → P (k (repeats author body now window v.posts) (spend v))
        → P (bind (duplicate_asked env author (some body) now window) k v)
    duplicate_asked-cases author body now (pos n) k v p q r =
        searched-cases (is_pos (pos n)) author body (now - n) k v p q r
    duplicate_asked-cases author body now (negsuc n) k v p q r = bind-return P false k v q

    pub triage-cases :
        (ctx : WriteContext) (author : ℕ) (scanned body : Text) (now : Timestamp)
        (k : Result Refusal (List Reason) → M F B) (v : World F)
        → P (err outage, spend v)
        → P (k (judgement ctx author scanned body now v.posts) v)
        → P (k (judgement ctx author scanned body now v.posts) (spend v))
        → P (bind (triage env ctx author scanned (some body) now) k v)
    unfolding triage
    triage-cases ctx author scanned body now k v p q r =
        let policy = from_config F env.services.parse_policy ctx.space_config in
        let window = duplicate_window_ms F policy in
        bind-map P (duplicate_asked env author (some body) now window) _ k v
          (duplicate_asked-cases author body now window _ v p q r)

    pub record_next-cases :
        (key : Text) (a : Option Attempts) (k : Unit {0} → M F B) (w : World F)
        → P (err outage, spend w)
        → ((attempts : List (Text × Attempts)) (faults : List Bool)
            → P (k tt (record w { attempts = attempts; faults = faults })))
        → P (bind (record_next env key a) k w)
    unfolding record_login_attempt resume
    record_next-cases key none k w p q = bind-return P tt k w (q w.attempts w.faults)
    record_next-cases key (some a) k w p q = bind-cases P _ k w p (q _ _)

    pub hold-cases :
        (id : ℕ) (public_id : PublicId) (reasons : List Reason) (now : Timestamp)
        (k : Result Text (Unit {0}) → M F B) (w : World F)
        → P (err outage, spend w)
        → ((r : Result Text (Unit {0})) (v : World F)
            → v.posts ≡ w.posts
            → v.threads ≡ w.threads
            → P (k r v))
        → P (bind (hold env.services id public_id reasons now) k w)
    unfolding hold tell log_action bind resume
    hold-cases id public_id reasons now k w p q =
        bind-cases (λ t. P (resume k t)) _ _ w p (q _ _ refl refl)
