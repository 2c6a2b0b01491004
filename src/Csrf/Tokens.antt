-- ===== src/Csrf/Tokens.antt =====
-- What a minted token verifies against, and what any accepted text carries.
use notespace.Base.{
  inl, inr, ℕ, ◌+◌, ◌<◌, Option, some, List, [], ◌∷◌, ◌++◌, Text, Result, ok, err, if◌then◌else◌,
  leb, ◌==◌, pos, two_63, text_eq, text_eq→eq, text_eq_refl, ◌≡◌, ◌↔◌, refl, ap, ◌∙◌, sym, arith,
  Bool-cases, Option-cases, lt→leb-false, ok_not_err, ==→eq,
}
use notespace.Decimal.{show_i64, split_once}
use notespace.Decimal.RoundTrip.{split_once-append, parse_i64-show_i64, show_i64_dotless}
use mathlib.Core.Option.{some-injective, none-ne-some}
use notespace.Csrf.{CsrfKey, CsrfError, invalid, sign, mint, verify, dot}

-- A split keeps the text.
same_split :
    (sep : ℕ) {x y a b : Text}
    → ◌≡◌ {A = Option (Text × Text)} (some (x, y)) (some (a, b))
    → x ++ sep ∷ y ≡ a ++ sep ∷ b
same_split sep {x} {y} {a} {b} h =
    let e = some-injective (x, y) (a, b) h in λ i. (e i).0 ++ sep ∷ (e i).1

pub split_once_sound : (sep : ℕ) (s a b : Text) → split_once sep s ≡ some (a, b) → s ≡ a ++ sep ∷ b
unfolding split_once
split_once_sound sep [] a b h = absurd (none-ne-some (a, b) h)
split_once_sound sep (c ∷ s) a b h = elim (Bool-cases (c == sep)) [
  | inl here ↦ ap (λ x. x ∷ s) (==→eq c sep here) ∙ same_split sep {x = []} (sym (rw here refl) ∙ h)
  | inr later ↦ elim (Option-cases (split_once sep s)) [
    | inl missing ↦ absurd (none-ne-some (a, b) (sym (rw (later, missing) refl) ∙ h))
    | inr (p, found) ↦
        ap (◌∷◌ c) (split_once_sound sep s p.0 p.1 found)
        ∙ same_split sep {x = c ∷ p.0} {y = p.1} (sym (rw (later, found) refl) ∙ h)
  ]
]

-- The end of `verify`, decided.
accepts : ℕ → ℕ → Text → Text → Result CsrfError (Unit {0})
accepts t at s m = if leb t at then err invalid else if text_eq s m then ok tt else err invalid

decided : (t at : ℕ) (s m : Text) → (accepts t at s m ≡ ok tt) ↔ ((at < t) × (s ≡ m))
unfolding accepts
decided t at s m = (
  λ h. elim (Bool-cases (leb t at)) [
    | inl late ↦ absurd (ok_not_err {e = invalid} (sym h ∙ rw late refl))
    | inr early ↦ elim (Bool-cases (text_eq s m)) [
      | inl same ↦ (ground (arith, early), text_eq→eq s m same)
      | inr other ↦ absurd (ok_not_err {e = invalid} (sym h ∙ rw (early, other) refl))
    ]
  ],
  λ (early, same). rw (lt→leb-false t at early, same, text_eq_refl m) refl,
)

module _ (hmac : List ℕ → List ℕ → List ℕ) (key : CsrfKey) where
  -- A token that was minted for one binding verifies for a binding until its expiry, if and only
  -- if both have the same signature with this expiry.
  pub verify-mint_iff :
      (minted for_binding : Text) (now lifetime_ms at : ℕ)
      → now + lifetime_ms < two_63
      → (verify hmac key (mint hmac key minted now lifetime_ms).signed for_binding at ≡ ok tt) ↔ (
          (at < now + lifetime_ms)
          × (sign hmac key for_binding (pos (now + lifetime_ms))
              ≡ sign hmac key minted (pos (now + lifetime_ms))))
  unfolding verify mint accepts
  verify-mint_iff minted for_binding now lifetime_ms at small =
      let t = now + lifetime_ms in
      let e =
        split_once-append dot (show_i64 (pos t)) (sign hmac key minted (pos t))
          (show_i64_dotless t) in
      rw (e, parse_i64-show_i64 t small) (decided t at _ _)
