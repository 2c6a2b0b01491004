-- ===== src/Naming/Normal.antt =====
-- Which names `validate` of crates/core/src/naming.rs accepts, and in what form.
use notespace.Base.{
  ℕ, suc, ◌+◌, ◌≤◌, Bool, true, false, not, ◌&&◌, ◌||◌, Text, [], ◌∷◌, map, any, all, length, ok,
  if◌then◌else◌, ◌==◌, ◌≡◌, refl, sym, ap, ◌∙◌, ◌↔◌, arith, Result-cases, inl, inr, subst,
}
use notespace.Naming.{
  Rules, to_lower, is_letter, is_digit, is_separator, round, scan, is_reserved, validate,
}

abbrev pub is_allowed : ℕ → Bool
is_allowed c = is_letter c || is_digit c || is_separator c

abbrev ends : Text → Bool
ends [] = true
ends (c ∷ s) = false

-- Each separator has a character that is no separator before it, and some character after it.
unfoldable pub is_tidy : Bool → Text → Bool
is_tidy prev_sep [] = true
is_tidy prev_sep (c ∷ s) =
    let rest = is_tidy (is_separator c) s in
    (if is_separator c then not prev_sep && not (ends s) else true) && rest

abbrev pub lowered : Text → Text
lowered s = map to_lower s

-- The loop accepts exactly the characters and their order, and returns them in lower case.
abbrev Accepts : Bool → Bool → Text → Text × Bool → Type 0
Accepts prev_sep has_letter s (out, letter) =
    (out ≡ lowered s)
    × (letter ≡ (has_letter || any is_letter (lowered s)))
    × (all is_allowed (lowered s) ≡ true)
    × (is_tidy prev_sep (lowered s) ≡ true)

round-ok :
    (rules : Rules) (n i : ℕ) (prev_sep has_letter : Bool) (ch : ℕ) (s : Text) {b : Bool}
    → n ≡ i + suc (length s)
    → round rules n i prev_sep has_letter ch ≡ ok b
    → (b ≡ (has_letter || is_letter (to_lower ch)))
      × (is_allowed (to_lower ch) ≡ true)
      × ((if is_separator (to_lower ch)
            then not ((i == 0) || prev_sep) && not (ends (lowered s))
            else true)
          ≡ true)
unfolding round
round-ok rules n i prev_sep has_letter ch [] {b} e h = ground arith
round-ok rules n i prev_sep has_letter ch (d ∷ s) {b} e h = ground arith

scan-Accepts :
    (rules : Rules) (n i : ℕ) (prev_sep has_letter : Bool) (s : Text) {r : Text × Bool}
    → n ≡ i + length s
    → scan rules n i prev_sep has_letter s ≡ ok r
    → Accepts ((i == 0) || prev_sep) has_letter s r
unfolding scan is_tidy
scan-Accepts rules n i prev_sep has_letter [] {r} e h = ground arith
scan-Accepts rules n i prev_sep has_letter (ch ∷ s) {r} e h =
    elim (Result-cases (round rules n i prev_sep has_letter ch)) [
      | inr (d, q) ↦ absurd (ground (arith, q))
      | inl (b, q) ↦ elim (Result-cases (scan rules n (i + 1) (is_separator (to_lower ch)) b s)) [
        | inr (d, t) ↦ absurd (ground (arith, q, t))
        | inl (rest, t) ↦ ground (
          arith,
          q,
          t,
          round-ok rules n i prev_sep has_letter ch s e q,
          scan-Accepts rules n (i + 1) (is_separator (to_lower ch)) b s (omega arith) t,
        )
      ]
    ]

round-allowed :
    (rules : Rules) (n i : ℕ) (prev_sep has_letter : Bool) (ch : ℕ) (s : Text)
    → n ≡ i + suc (length s)
    → is_allowed (to_lower ch) ≡ true
    → (if is_separator (to_lower ch)
        then not ((i == 0) || prev_sep) && not (ends (lowered s))
        else true)
      ≡ true
    → round rules n i prev_sep has_letter ch ≡ ok (has_letter || is_letter (to_lower ch))
unfolding round
round-allowed rules n i prev_sep has_letter ch [] e h k = ground arith
round-allowed rules n i prev_sep has_letter ch (d ∷ s) e h k = ground arith

and_split : (a b : Bool) → (a && b) ≡ true → (a ≡ true) × (b ≡ true)
and_split a b h = (ground arith, ground arith)

or_assoc : (a b c : Bool) → ((a || b) || c) ≡ (a || (b || c))
or_assoc a b c = ground arith

later_prev : (i : ℕ) (b : Bool) → ((i + 1 == 0) || b) ≡ b
later_prev i b = ground arith

scan-accepted :
    (rules : Rules) (n i : ℕ) (prev_sep has_letter : Bool) (s : Text)
    → n ≡ i + length s
    → all is_allowed (lowered s) ≡ true
    → is_tidy ((i == 0) || prev_sep) (lowered s) ≡ true
    → scan rules n i prev_sep has_letter s ≡ ok (lowered s, has_letter || any is_letter (lowered s))
unfolding scan is_tidy
scan-accepted rules n i prev_sep has_letter [] e h k = ground arith
scan-accepted rules n i prev_sep has_letter (ch ∷ s) e h k =
    let (h1, h2) = and_split (is_allowed (to_lower ch)) (all is_allowed (lowered s)) h in
    let (k1, k2) = and_split _ (is_tidy (is_separator (to_lower ch)) (lowered s)) k in
    let letter = has_letter || is_letter (to_lower ch) in
    rw
      (
        round-allowed rules n i prev_sep has_letter ch s e h1 k1,
        scan-accepted rules n (i + 1) (is_separator (to_lower ch)) letter s (omega arith) h2 (
            subst (λ b. is_tidy b (lowered s) ≡ true)
              (sym (later_prev i (is_separator (to_lower ch)))) k2),
      )
      (ap (λ b. ok (to_lower ch ∷ lowered s, b))
        (or_assoc has_letter (is_letter (to_lower ch)) (any is_letter (lowered s))))

-- What a name has to be, in its lower-case form.
pub record IsName (rules : Rules) (t : Text) : Type 0 where
  pub long : rules.min ≤ length t
  pub short : length t ≤ rules.max
  pub charset : all is_allowed t ≡ true
  pub tidy : is_tidy true t ≡ true
  pub lettered : any is_letter t ≡ true
  pub free : is_reserved t rules.reserved ≡ false

length-lowered : (s : Text) → length (lowered s) ≡ length s
length-lowered [] = refl
length-lowered (c ∷ s) = ap suc (length-lowered s)

-- `validate` accepts exactly the texts whose lower-case form is a name, and returns that form.
pub validate_iff :
    (input t : Text) (rules : Rules)
    → (validate input rules ≡ ok t) ↔ ((t ≡ lowered input) × IsName rules t)
unfolding validate
validate_iff input t rules = (
  λ h. elim (Result-cases (scan rules (length input) 0 false false input)) [
    | inr (d, q) ↦ absurd (ground (arith, q))
    | inl (r, q) ↦ ground (
      arith,
      q,
      length-lowered input,
      scan-Accepts rules (length input) 0 false false input (omega arith) q,
    )
  ],
  λ (same, is_name). ground (
    arith,
    length-lowered input,
    scan-accepted rules (length input) 0 false false input (omega arith),
  ),
)

to_lower_twice : (c : ℕ) → to_lower (to_lower c) ≡ to_lower c
unfolding to_lower
to_lower_twice c = ground arith

lowered_twice : (s : Text) → lowered (lowered s) ≡ lowered s
lowered_twice [] = refl
lowered_twice (c ∷ s) = rw (to_lower_twice c, lowered_twice s) refl

-- A name that was accepted is accepted again, unchanged: what is stored is a normal form.
pub validate-again :
    (input t : Text) (rules : Rules) → validate input rules ≡ ok t → validate t rules ≡ ok t
validate-again input t rules h =
    let (same, is_name) = (validate_iff input t rules).0 h in
    (validate_iff t t rules).1 (same ∙ sym (lowered_twice input) ∙ ap lowered (sym same), is_name)
