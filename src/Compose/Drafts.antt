-- ===== src/Compose/Drafts.antt =====
-- What the `check` of crates/core/src/compose.rs accepts.
use notespace.Base.{
  Bool, true, false, not, ◌||◌, Text, codes, [], ◌∷◌, Option, none, some, Result, ok, err, ok_inj,
  any, length, ◌==◌, ◌≤◌, if◌then◌else◌, ◌≡◌, ◌⊎◌, inl, inr, refl, sym, ap, ◌∙◌, arith,
}
use mathlib.Core.Option.{some-injective}
use notespace.Strings.{trim, is_whitespace, is_empty}
use notespace.TreePath.{starts_with}
use notespace.Reply as Reply
use notespace.Reply.{check_body}
use notespace.Reply.Bodies.{Sized, check_body_sound}
use notespace.Compose.{Rejected, is_control, is_title, is_url, checked_body, check_draft}

-- The url is what was written, with a scheme of the web, or nothing was written.
abbrev pub Linked : Text → Option Text → Type 0
Linked written none = written ≡ []
Linked written (some url) =
    (url ≡ written)
    × ((starts_with url (codes "https://") ≡ true) ⊎ (starts_with url (codes "http://") ≡ true))
    × (length url ≤ 2000)
    × (any (λ c. is_whitespace c || is_control c) url ≡ false)

-- A title of one line and 3 to 200 characters, a url or none, and a body of an allowed length.
pub record WellFormed (title url body title_out : Text) (url_out : Option Text) : Type 0 where
  pub trimmed : title_out ≡ trim title
  pub title_length : (3 ≤ length title_out) × (length title_out ≤ 200)
  pub one_line : any (λ c. c == 13 || c == 10) title_out ≡ false
  pub linked : Linked (trim url) url_out
  pub sized : Sized body

abbrev Passed :
    Bool
    → Bool
    → Bool
    → Text
    → Text
    → Result Reply.Rejected (Unit {0})
    → Text
    → Option Text
    → Type 0
Passed titled empty linked title url body title_out url_out =
    (titled ≡ true)
    × (title_out ≡ title)
    × (body ≡ ok tt)
    × (((empty ≡ true) × (url_out ≡ none)) ⊎ ((linked ≡ true) × (url_out ≡ some url)))

passed :
    (titled empty linked : Bool) (title url : Text) (body : Result Reply.Rejected (Unit {0}))
    {title_out : Text} {url_out : Option Text}
    → (if not titled
        then err Rejected.bad_title
        else if empty
        then checked_body title none body
        else if not linked
        then err Rejected.bad_url
        else checked_body title (some url) body)
      ≡ ok (title_out, url_out)
    → Passed titled empty linked title url body title_out url_out
passed false empty linked title url body h = cc
passed true true linked title url (err why) h = cc
passed true true linked title url (ok _) h =
    (refl, ap (λ t. t.0) (sym (ok_inj h)), refl, inl (refl, ap (λ t. t.1) (sym (ok_inj h))))
passed true false false title url body h = cc
passed true false true title url (err why) h = cc
passed true false true title url (ok _) h =
    (refl, ap (λ t. t.0) (sym (ok_inj h)), refl, inr (refl, ap (λ t. t.1) (sym (ok_inj h))))

is_empty_sound : (s : Text) → is_empty s ≡ true → s ≡ []
is_empty_sound [] h = refl
is_empty_sound (c ∷ s) h = cc

Linked-none :
    (written : Text) (url : Option Text) → is_empty written ≡ true → url ≡ none → Linked written url
Linked-none written none e h = is_empty_sound written e
Linked-none written (some url) e h = cc

Linked-some :
    (written : Text) (url : Option Text)
    → is_url written ≡ true
    → url ≡ some written
    → Linked written url
Linked-some written none e h = cc
Linked-some written (some url) e h =
    let same : url ≡ written = some-injective _ _ h in
    let good : is_url url ≡ true = ap is_url same ∙ e in
    (same, ground (arith, good), ground (arith, good), ground (arith, good))

pub check_draft_sound :
    (title url body : Text) {title_out : Text} {url_out : Option Text}
    → check_draft title url body ≡ ok (title_out, url_out)
    → WellFormed title url body title_out url_out
unfolding check_draft
check_draft_sound title url body {title_out} {url_out} h =
    let (titled, same, sized, linked) =
      passed (is_title (trim title)) (is_empty (trim url)) (is_url (trim url)) (trim title)
        (trim url) (check_body body) h in
    let is_titled : is_title title_out ≡ true = ap is_title same ∙ titled in
    record {
      trimmed = same;
      title_length = ground (arith, is_titled);
      one_line = ground (arith, is_titled);
      linked = elim linked [
        | inl (empty, nothing) ↦ Linked-none (trim url) url_out empty nothing
        | inr (good, something) ↦ Linked-some (trim url) url_out good something
      ];
      sized = check_body_sound body sized;
    }
