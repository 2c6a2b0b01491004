-- ===== src/Reply/Bodies.antt =====
-- What `check_body` of crates/core/src/reply.rs accepts.
use notespace.Base.{
  ℕ, ◌≤◌, Text, Result, ok, err, ltb, if◌then◌else◌, Bool-cases, inl, inr, length, ◌≡◌, arith,
}
use notespace.Strings.{trim}
use notespace.Reply.{Rejected, min_body_chars, max_body_chars, check_body}

abbrev pub Sized : Text → Type 0
Sized body = (2 ≤ length (trim body)) × (length (trim body) ≤ 32768)

within :
    (n : ℕ)
    → ◌≡◌ {A = Result Rejected (Unit {0})}
        (if ltb n min_body_chars
          then err Rejected.empty
          else if ltb max_body_chars n
          then err (Rejected.too_long n max_body_chars)
          else ok tt)
        (ok tt)
    → (2 ≤ n) × (n ≤ 32768)
within n h = elim (Bool-cases (ltb n 2)) [ inl few ↦ ground arith | inr enough ↦ ground arith ]

pub check_body_sound : (body : Text) → check_body body ≡ ok tt → Sized body
unfolding check_body
check_body_sound body h = within (length (trim body)) h
