-- ===== src/Cookie/Examples.antt =====
-- Cookies and targets of redirects.
use notespace.Base.{codes, ◌∷◌, none, some, text_eq, ◌≡◌, refl}
use notespace.Strings.{trim, trim_start, trim_end, is_whitespace}
use notespace.TreePath.{split, starts_with}
use notespace.Decimal.{split_once}
use notespace.Cookie.{get_cookie, safe_next}

first_of_its_name : get_cookie (some (codes "a=1; flag; b = 2 ;a=3")) (codes "a") ≡ some (codes "1")
unfolding get_cookie split trim trim_start trim_end is_whitespace split_once text_eq
first_of_its_name = refl

name_is_exact : get_cookie (some (codes "a=1; b = 2")) (codes "b") ≡ none
unfolding get_cookie split trim trim_start trim_end is_whitespace split_once text_eq
name_is_exact = refl

-- A tab, which browsers drop from a URL, hides the second slash.
tab_accepted :
    safe_next (b'/' ∷ 9 ∷ codes "/evil.example") ≡ some (b'/' ∷ 9 ∷ codes "/evil.example")
unfolding safe_next starts_with
tab_accepted = refl

second_slash_refused : safe_next (codes "//evil.example") ≡ none
unfolding safe_next starts_with
second_slash_refused = refl
