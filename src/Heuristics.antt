-- ===== src/Heuristics.antt =====
-- crates/core/src/moderation/heuristics.rs: the free checks on every write. The tables of Unicode
-- are a parameter.
pub mod Holds
pub mod Examples
use notespace.Base.{
  ℕ, zero, suc, ◌+◌, ◌-◌, ◌*◌, ◌/◌, Bool, true, false, not, ◌&&◌, ◌||◌, Text, codes, List, [], ◌∷◌,
  ◌++◌, Option, none, some, length, if◌then◌else◌, ltb, leb, any, all, ℤ, pos, negsuc, is_pos,
}
use notespace.Model.{Timestamp, Role, can_moderate}
use notespace.Float.{Float}
use notespace.Moderation.{Reason}
use notespace.Moderation.Policy.{ModerationPolicy, new_account_ms}
use notespace.Strings.{is_whitespace, is_empty, trim}
use notespace.TreePath.{starts_with}

-- `str::to_lowercase`, `char::is_alphabetic` and `char::is_uppercase`.
pub record Unicode : Type 0 where
  pub to_lowercase : Text → Text
  pub is_alphabetic : ℕ → Bool
  pub is_uppercase : ℕ → Bool

pub record Signals : Type 0 where
  pub body_md : Text
  pub author_created_at : Timestamp
  pub author_role : Role
  pub is_duplicate : Bool
  pub now : Timestamp

pub data Refusal : Type 0 where
  duplicate : Refusal

pub data Triage : Type 0 where
  publish : Triage
  hold : List Reason → Triage
  refuse : Refusal → Triage

abbrev pub manipulation_markers : List Text
manipulation_markers =
    codes "ignore previous instructions"
    ∷ codes "ignore all previous instructions"
    ∷ codes "ignore the above"
    ∷ codes "disregard your instructions"
    ∷ codes "you are now"
    ∷ codes "system prompt"
    ∷ codes "as an ai"
    ∷ codes "respond with json"
    ∷ codes "output json"
    ∷ codes "\"decision\":"
    ∷ codes "\"confidence\":"
    ∷ codes "classify this as"
    ∷ codes "mark this as clean"
    ∷ codes "mark this as safe"
    ∷ codes "this post is safe"
    ∷ codes "</post>"
    ∷ codes "<post>"
    ∷ []

-- `split_whitespace`, with the word that is being read.
flush : Text → List Text → List Text
flush [] words = words
flush (c ∷ word) words = (c ∷ word) ∷ words

words_from : Text → Text → List Text
unfolding flush
words_from word [] = flush word []
words_from word (c ∷ s) =
    let rest = words_from (if is_whitespace c then [] else word ++ c ∷ []) s in
    if is_whitespace c then flush word rest else rest

unfoldable pub split_whitespace : Text → List Text
unfolding words_from
split_whitespace s = words_from [] s

join : List Text → Text
join [] = []
join (w ∷ []) = w
join (w ∷ v ∷ ws) = w ++ b' ' ∷ join (v ∷ ws)

-- `str::contains` of a text.
unfoldable pub contains_text : Text → Text → Bool
contains_text [] pattern = is_empty pattern
contains_text (c ∷ s) pattern = starts_with (c ∷ s) pattern || contains_text s pattern

-- `matches(pattern).count()`, with the characters of the last match that are left to pass.
count_matches : Text → ℕ → Text → ℕ
count_matches pattern left [] = 0
count_matches pattern (suc left) (c ∷ s) = count_matches pattern left s
count_matches pattern zero (c ∷ s) =
    let hit = starts_with (c ∷ s) pattern in
    let rest = count_matches pattern (if hit then length pattern - 1 else 0) s in
    if hit then suc rest else rest

-- The bytes of a text in UTF-8.
byte_length : Text → ℕ
byte_length [] = 0
byte_length (c ∷ s) =
    let size =
      if ltb c 0x80 then 1 else (if ltb c 0x800 then 2 else (if ltb c 0x10000 then 3 else 4)) in
    size + byte_length s

count_of : {A : Type 0} → (A → Bool) → List A → ℕ
count_of test [] = 0
count_of test (x ∷ xs) = let rest = count_of test xs in if test x then suc rest else rest

www : Text → Bool
unfolding byte_length
www w = starts_with w (codes "www.") && ltb 6 (byte_length w)

find_term : (Text → Bool) → List Text → Option Text
find_term test [] = none
find_term test (t ∷ ts) = let rest = find_term test ts in if test t then some t else rest

age_ms : Signals → ℕ
age_ms s = s.now - s.author_created_at

-- `age_ms < limit`, where the limit may have wrapped around.
younger : ℕ → ℤ → Bool
younger age (pos limit) = ltb age limit
younger age (negsuc n) = false

when : Bool → Reason → List Reason
when true r = r ∷ []
when false r = []

when_some : Option Text → List Reason
when_some none = []
when_some (some t) = Reason.blocklist t ∷ []

abbrev pub is_style : Reason → Bool
is_style Reason.shouting = true
is_style _ = false

module _ (unicode : Unicode) where
  unfoldable pub fold : Text → Text
  unfolding join
  fold s = unicode.to_lowercase (join (split_whitespace s))

  unfoldable pub count_links : Text → ℕ
  unfolding count_matches www count_of
  count_links body =
      let lower = unicode.to_lowercase body in
      count_matches (codes "http://") 0 lower
      + count_matches (codes "https://") 0 lower
      + count_of www (split_whitespace lower)

  abbrev pub min_letters : ℕ
  min_letters = 40

  -- The quotient of two numbers below 2 ^ 53 is rounded to the 0.8 of the code exactly where it
  -- is 4/5, and is above it exactly where it is above 4/5.
  unfoldable pub is_shouting : Text → Bool
  unfolding count_of
  is_shouting body =
      let letters = count_of unicode.is_alphabetic body in
      let upper = count_of (λ c. unicode.is_alphabetic c && unicode.is_uppercase c) body in
      not (ltb letters min_letters) && leb (4 * letters) (5 * upper)

  module _ (F : Float) (policy : ModerationPolicy F) where
    unfoldable pub is_new : Signals → Bool
    unfolding age_ms younger
    is_new s = let limit = new_account_ms F policy in is_pos limit && younger (age_ms s) limit

    abbrev pub link_limit : Signals → ℕ
    link_limit s = if is_new s then policy.max_links_new else policy.max_links

    unfoldable pub blocked_term : Signals → Option Text
    unfolding find_term
    blocked_term s =
        find_term (λ t. not (is_empty (trim t)) && contains_text (fold s.body_md) (fold t))
          policy.blocklist

    unfoldable pub manipulates : Signals → Bool
    manipulates s = any (contains_text (fold s.body_md)) manipulation_markers

    -- The pushes of `triage`, in their order.
    unfoldable pub reasons_for : Signals → List Reason
    unfolding when when_some age_ms
    reasons_for s =
        let links = count_links s.body_md in
        when (is_new s) (Reason.new_account (age_ms s / 3600000))
        ++ when (ltb (link_limit s) links) (Reason.too_many_links links (link_limit s))
        ++ when_some (blocked_term s)
        ++ when (manipulates s) Reason.manipulation
        ++ when (is_shouting s.body_md) Reason.shouting

    unfoldable pub triage : Signals → Triage
    triage s =
        if s.is_duplicate
        then refuse duplicate
        else if not policy.enabled || can_moderate s.author_role
        then publish
        else (let reasons = reasons_for s in
            if is_empty reasons || all is_style reasons then publish else hold reasons)
