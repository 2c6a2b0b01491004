-- ===== src/Heuristics/Holds.antt =====
-- Which posts the free checks hold, and which they refuse.
use notespace.Base.{
  ℕ, Text, Bool, true, false, not, ◌||◌, Option, none, some, List, [], ◌∷◌, ◌++◌, ◌-◌, ◌/◌, all,
  ◌⊎◌, ◌≢◌, inl, inr, arith, if◌then◌else◌, ltb, ◌≡◌, ◌↔◌, refl, sym, ap, ◌∙◌, subst,
}
use notespace.Model.{can_moderate}
use notespace.Float.{Float}
use notespace.Moderation.{Reason}
use notespace.Moderation.Policy.{ModerationPolicy}
use notespace.Strings.{is_empty}
use notespace.Heuristics.{
  Unicode, Signals, Triage, publish, hold, refuse, duplicate, is_new, link_limit, count_links,
  blocked_term, manipulates, is_shouting, when, when_some, reasons_for, is_style, triage, age_ms,
}

abbrev is_some : {A : Type 0} → Option A → Bool
is_some none = false
is_some (some a) = true

-- The reasons are all of style exactly where none of the first four is there.
style-when :
    (b c d e : Bool) (o : Option Text) (n m k : ℕ)
    → let reasons =
        when b (Reason.new_account n)
        ++ when c (Reason.too_many_links m k)
        ++ when_some o
        ++ when d Reason.manipulation
        ++ when e Reason.shouting in
      (is_empty reasons || all is_style reasons) ≡ not (b || c || is_some o || d)
unfolding when when_some
style-when true c d e o n m k = refl
style-when false true d e o n m k = refl
style-when false false d e (some t) n m k = refl
style-when false false true e none n m k = refl
style-when false false false true none n m k = refl
style-when false false false false none n m k = refl

if-not : {A : Type 0} (b : Bool) (x y : A) → (if not b then x else y) ≡ (if b then y else x)
if-not true x y = refl
if-not false x y = refl

-- Which of the nested choices holds.
chosen :
    (d e m s : Bool) (rs reasons : List Reason)
    → ((if d
          then refuse duplicate
          else if not e || m
          then publish
          else if s
          then hold rs
          else publish)
        ≡ hold reasons)
      ↔ ((d ≡ false) × (e ≡ true) × (m ≡ false) × (s ≡ true) × (reasons ≡ rs))
chosen true e m s rs reasons = (λ h. cc, λ h. let e = h.0 in cc)
chosen false false m s rs reasons = (λ h. cc, λ h. let e = h.1 in cc)
chosen false true true s rs reasons = (λ h. cc, λ h. let e = h.2 in cc)
chosen false true false false rs reasons = (λ h. cc, λ h. let e = h.3 in cc)
chosen false true false true rs reasons =
    (λ h. (refl, refl, refl, refl, cc), λ h. ap hold (sym h.4))

-- Some element of the list is the reason.
abbrev pub Listed : Reason → List Reason → Type 0
Listed r [] = ⊥
Listed r (x ∷ xs) = (x ≡ r) ⊎ Listed r xs

Listed-append :
    (r : Reason) (xs ys : List Reason) → Listed r (xs ++ ys) ↔ (Listed r xs ⊎ Listed r ys)
Listed-append r [] ys = ground arith
Listed-append r (x ∷ xs) ys = ground (arith, Listed-append r xs ys)

Listed-when : (r x : Reason) (b : Bool) → Listed r (when b x) ↔ ((b ≡ true) × (x ≡ r))
unfolding when
Listed-when r x true = ground arith
Listed-when r x false = ground arith

Listed-some :
    (t : Text) (o : Option Text) → Listed (Reason.blocklist t) (when_some o) ↔ (o ≡ some t)
unfolding when_some
Listed-some t none = ground arith
Listed-some t (some u) = ground arith

-- No other reason comes from the list of terms.
Listed-others :
    (r : Reason) (o : Option Text)
    → ((t : Text) → Reason.blocklist t ≢ r)
    → Listed r (when_some o)
    → ⊥
unfolding when_some
Listed-others r none h l = l
Listed-others r (some t) h (inl e) = h t e
Listed-others r (some t) h (inr l) = l

Listed-all :
    (r : Reason) (b c d e : Bool) (o : Option Text) (x y : Reason)
    → Listed r (
        when b x ++ when c y ++ when_some o ++ when d Reason.manipulation ++ when e Reason.shouting)
      ↔ (((b ≡ true) × (x ≡ r))
          ⊎ ((c ≡ true) × (y ≡ r))
          ⊎ Listed r (when_some o)
          ⊎ ((d ≡ true) × (Reason.manipulation ≡ r))
          ⊎ ((e ≡ true) × (Reason.shouting ≡ r)))
Listed-all r b c d e o x y =
    let two = when b x ++ when c y in
    let three = two ++ when_some o in
    ground (
      arith,
      Listed-append r (three ++ when d Reason.manipulation) (when e Reason.shouting),
      Listed-append r three (when d Reason.manipulation),
      Listed-append r two (when_some o),
      Listed-append r (when b x) (when c y),
      Listed-when r x b,
      Listed-when r y c,
      Listed-when r Reason.manipulation d,
      Listed-when r Reason.shouting e,
    )

module _ (unicode : Unicode) (F : Float) (policy : ModerationPolicy F) where
  -- One of the four checks that are about more than style.
  unfoldable pub suspicious : Signals → Bool
  suspicious s =
      is_new unicode F policy s
      || ltb (link_limit unicode F policy s) (count_links unicode s.body_md)
      || is_some (blocked_term unicode F policy s)
      || manipulates unicode F policy s

  judged : Signals → Triage
  judged s = if suspicious s then hold (reasons_for unicode F policy s) else publish

  reasons_for-style :
      (s : Signals)
      → let reasons = reasons_for unicode F policy s in
        (is_empty reasons || all is_style reasons) ≡ not (suspicious s)
  unfolding reasons_for suspicious
  reasons_for-style s =
      style-when (is_new unicode F policy s)
        (ltb (link_limit unicode F policy s) (count_links unicode s.body_md))
        (manipulates unicode F policy s) (is_shouting unicode s.body_md)
        (blocked_term unicode F policy s) _ _ _

  triage-judged :
      (s : Signals)
      → triage unicode F policy s ≡ (
          if s.is_duplicate
          then refuse duplicate
          else if not policy.enabled || can_moderate s.author_role
          then publish
          else judged s)
  unfolding triage judged
  triage-judged s =
      rw
        (reasons_for-style s, if-not (suspicious s) publish (hold (reasons_for unicode F policy s)))
        refl

  -- The list says of each check, and truly, whether it found something and what.
  pub record Tells (s : Signals) (reasons : List Reason) : Type 0 where
    pub of_age :
        (hours : ℕ)
        → Listed (Reason.new_account hours) reasons
          ↔ ((is_new unicode F policy s ≡ true) × (hours ≡ (s.now - s.author_created_at) / 3600000))
    pub of_links :
        (count limit : ℕ)
        → Listed (Reason.too_many_links count limit) reasons ↔ (
            (count ≡ count_links unicode s.body_md)
            × (limit
                ≡ (if is_new unicode F policy s then policy.max_links_new else policy.max_links))
            × (ltb limit count ≡ true))
    pub of_term :
        (term : Text)
        → Listed (Reason.blocklist term) reasons ↔ (blocked_term unicode F policy s ≡ some term)
    pub of_manipulation :
        Listed Reason.manipulation reasons ↔ (manipulates unicode F policy s ≡ true)
    pub of_shouting : Listed Reason.shouting reasons ↔ (is_shouting unicode s.body_md ≡ true)

  reasons_for-Tells : (s : Signals) → Tells s (reasons_for unicode F policy s)
  unfolding reasons_for age_ms
  reasons_for-Tells s =
      let b = is_new unicode F policy s in
      let c = ltb (link_limit unicode F policy s) (count_links unicode s.body_md) in
      let o = blocked_term unicode F policy s in
      let d = manipulates unicode F policy s in
      let e = is_shouting unicode s.body_md in
      let hours = (s.now - s.author_created_at) / 3600000 in
      let x = Reason.new_account hours in
      let y =
        Reason.too_many_links (count_links unicode s.body_md) (link_limit unicode F policy s) in
      record {
        of_age = λ h.
            let all_five = Listed-all (Reason.new_account h) b c d e o x y in
            let not_term = Listed-others (Reason.new_account h) o (λ t q. cc) in
            ground (arith, all_five, not_term);
        of_links = λ n m.
            let all_five = Listed-all (Reason.too_many_links n m) b c d e o x y in
            let not_term = Listed-others (Reason.too_many_links n m) o (λ t q. cc) in
            ground (arith, all_five, not_term);
        of_term = λ t.
            let all_five = Listed-all (Reason.blocklist t) b c d e o x y in
            let term = Listed-some t o in ground (arith, all_five, term);
        of_manipulation =
            let all_five = Listed-all Reason.manipulation b c d e o x y in
            let not_term = Listed-others Reason.manipulation o (λ t q. cc) in
            ground (arith, all_five, not_term);
        of_shouting =
            let all_five = Listed-all Reason.shouting b c d e o x y in
            let not_term = Listed-others Reason.shouting o (λ t q. cc) in
            ground (arith, all_five, not_term);
      }

  -- A post is held exactly where it repeats none, moderation is enabled, its author may not
  -- moderate, and one of the four checks other than the one for upper case finds something. The
  -- reasons are those of all five checks that found something, and no others.
  pub triage-hold_iff :
      (s : Signals) (reasons : List Reason)
      → (triage unicode F policy s ≡ hold reasons) ↔ (
          (s.is_duplicate ≡ false)
          × (policy.enabled ≡ true)
          × (can_moderate s.author_role ≡ false)
          × (suspicious s ≡ true)
          × (reasons ≡ reasons_for unicode F policy s)
          × Tells s reasons)
  unfolding judged
  triage-hold_iff s reasons =
      let held =
        chosen s.is_duplicate policy.enabled (can_moderate s.author_role) (suspicious s)
          (reasons_for unicode F policy s) reasons in
      let same = triage-judged s in
      (
        (λ h.
            let (a, b, c, d, e) = held.0 (sym same ∙ h) in
            (a, b, c, d, e, subst (Tells s) (sym e) (reasons_for-Tells s))),
        (λ (a, b, c, d, e, f). same ∙ held.1 (a, b, c, d, e)),
      )
