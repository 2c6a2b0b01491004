-- ===== src/Csrf/Sealing.antt =====
-- Sealed payloads: what opens, and what a minted token gives away.
use notespace.Base.{
  inl, inr, ℕ, ◌+◌, ◌<◌, false, some, List, ◌∷◌, ◌++◌, Text, All, ok, err, if◌then◌else◌, leb, ℤ,
  pos, two_63, text_eq, text_eq→eq, text_eq_refl, ◌≡◌, refl, ap, ◌∙◌, sym, Bool-cases, Option-cases,
  ok_not_err, ok_inj,
}
use notespace.Decimal.{show_i64, parse_i64, split_once}
use notespace.Decimal.RoundTrip.{split_once-append, parse_i64-show_i64, show_i64_dotless}
use notespace.Encoding.{base64url, base64url_decode}
use notespace.Encoding.Chunks.{IsByte}
use notespace.Encoding.RoundTrip.{base64url_decode-base64, base64url_dotless}
use notespace.Csrf.{CsrfKey, invalid, sign, mint, seal, seal_binding, unseal, over, dot}
use notespace.Csrf.Tokens.{split_once_sound}

module _ (hmac : List ℕ → List ℕ → List ℕ) (key : CsrfKey) where
  -- A sealed payload opens to itself until it expires, and not from then on.
  pub unseal-seal :
      (payload : List ℕ) (now lifetime_ms at : ℕ)
      → All IsByte payload
      → now + lifetime_ms < two_63
      → unseal hmac key (seal hmac key payload now lifetime_ms) at
        ≡ (if leb (now + lifetime_ms) at then err invalid else ok payload)
  unfolding unseal seal
  unseal-seal payload now lifetime_ms at bytes small =
      let t = now + lifetime_ms in
      let body = base64url payload in
      let sig = sign hmac key (seal_binding hmac key body) (pos t) in
      rw
        (
          split_once-append dot (show_i64 (pos t)) (body ++ dot ∷ sig) (show_i64_dotless t),
          split_once-append dot body sig (base64url_dotless payload bytes),
          parse_i64-show_i64 t small,
          text_eq_refl sig,
          (base64url_decode-base64 payload bytes).0,
        )
        refl

  -- What opens is a text of three parts whose last is the signature of the middle one with the
  -- time of the first, before that time, and the payload is what the middle part encodes.
  pub Opens : Text → ℕ → List ℕ → Type 0
  Opens sealed at payload =
      (exp : Text) × (body : Text) × (t : ℤ) × (sealed
        ≡ exp ++ dot ∷ (body ++ dot ∷ sign hmac key (seal_binding hmac key body) t))
      × (parse_i64 exp ≡ some t)
      × (over t at ≡ false)
      × (base64url_decode body ≡ some payload)

  -- What opens: the body of a text in three parts, whose third is the signature of the body with the
  -- expiry, which is not over.
  pub unseal_sound :
      (sealed : Text) (at : ℕ) (payload : List ℕ)
      → unseal hmac key sealed at ≡ ok payload
      → Opens sealed at payload
  unfolding unseal Opens
  unseal_sound sealed at payload h =
      let refused : unseal hmac key sealed at ≡ err invalid → ⊥ =
        λ r. ok_not_err {e = invalid} (sym h ∙ r) in
      elim (Option-cases (split_once dot sealed)) [
        | inl e ↦ absurd (refused (rw e refl))
        | inr (p, e) ↦ elim (Option-cases (split_once dot p.1)) [
          | inl e' ↦ absurd (refused (rw (e, e') refl))
          | inr (q, e') ↦ elim (Option-cases (parse_i64 p.0)) [
            | inl f ↦ absurd (refused (rw (e, e', f) refl))
            | inr (t, f) ↦
                let s = sign hmac key (seal_binding hmac key q.0) t in
                elim (Bool-cases (text_eq s q.1)) [
                  | inr other ↦ absurd (refused (rw (e, e', f, other) refl))
                  | inl same ↦ elim (Bool-cases (over t at)) [
                    | inl late ↦ absurd (refused (rw (e, e', f, same, late) refl))
                    | inr early ↦ elim (Option-cases (base64url_decode q.0)) [
                      | inl bad ↦ absurd (refused (rw (e, e', f, same, early, bad) refl))
                      | inr (bytes, good) ↦ (
                        p.0,
                        q.0,
                        t,
                        split_once_sound dot sealed p.0 p.1 e
                            ∙ ap (λ x. p.0 ++ dot ∷ x) (split_once_sound dot p.1 q.0 q.1 e')
                            ∙ ap (λ x. p.0 ++ dot ∷ (q.0 ++ dot ∷ x)) (sym (text_eq→eq s q.1 same)),
                        f,
                        early,
                        good ∙ ap some (ok_inj (sym (rw (e, e', f, same, early, good) refl) ∙ h)),
                      )
                    ]
                  ]
                ]
          ]
        ]
      ]

  -- A token that is minted for a binding of the form `seal.body` carries the signature of the
  -- sealed payload: with the body put between its two parts it is the sealed text.
  pub seal-mint :
      (payload : List ℕ) (now lifetime_ms : ℕ)
      → let token =
          (mint hmac key (seal_binding hmac key (base64url payload)) now lifetime_ms).signed in
        (parts : Text × Text) × (split_once dot token ≡ some parts)
        × (parts.0 ++ dot ∷ (base64url payload ++ dot ∷ parts.1)
            ≡ seal hmac key payload now lifetime_ms)
  unfolding mint seal
  seal-mint payload now lifetime_ms =
      let t = now + lifetime_ms in
      let sig = sign hmac key (seal_binding hmac key (base64url payload)) (pos t) in
      (
        (show_i64 (pos t), sig),
        split_once-append dot (show_i64 (pos t)) sig (show_i64_dotless t),
        refl,
      )
