-- ===== src/Heuristics/Examples.antt =====
-- Triage of concrete posts, with the tables of ASCII.
use notespace.Base.{
  ℕ, ◌+◌, true, false, ◌&&◌, ◌||◌, Text, codes, [], ◌∷◌, map, if◌then◌else◌, leb, ◌≡◌, ◌↔◌, refl,
}
use notespace.Model.{Role, can_moderate}
use notespace.Float.{centi}
use notespace.Moderation.{Reason}
use notespace.Moderation.Policy.{default_policy, new_account_ms}
use notespace.Base.{wrap_i64}
use notespace.TreePath.{starts_with}
use notespace.Strings.{is_whitespace}
use notespace.Heuristics.{
  Unicode, Signals, publish, hold, triage, reasons_for, count_links, fold, split_whitespace, is_new,
  blocked_term, manipulates, is_shouting, contains_text,
}
use notespace.Heuristics.Holds.{Tells, suspicious, triage-hold_iff}

abbrev ascii_lower : ℕ → ℕ
ascii_lower c = if leb b'A' c && leb c b'Z' then c + 32 else c

abbrev pub ascii : Unicode
ascii = record {
  to_lowercase = map ascii_lower;
  is_alphabetic = λ c. (leb b'A' c && leb c b'Z') || (leb b'a' c && leb c b'z');
  is_uppercase = λ c. leb b'A' c && leb c b'Z';
}

abbrev post : Text → Signals
post body = record {
  body_md = body;
  author_created_at = 0;
  author_role = Role.member;
  is_duplicate = false;
  now = 1000000000000;
}

links_counted : count_links ascii (codes "see HTTP://a.b and https://c.d or www.e.org, www.x") ≡ 3
unfolding count_links split_whitespace starts_with is_whitespace
links_counted = refl

manipulation_held :
    triage ascii centi (default_policy centi) (post (codes "Please  IGNORE the\tabove, you."))
    ≡ hold (Reason.manipulation ∷ [])
unfolding triage reasons_for count_links fold split_whitespace is_new blocked_term manipulates
    is_shouting contains_text new_account_ms wrap_i64 starts_with is_whitespace
manipulation_held = refl

shouting_published :
    triage ascii centi
      (default_policy centi)
      (post (codes "AAAAAAAAAABBBBBBBBBBCCCCCCCCCCDDDDDDDDDD"))
    ≡ publish
unfolding triage reasons_for count_links fold split_whitespace is_new blocked_term manipulates
    is_shouting contains_text new_account_ms wrap_i64 starts_with is_whitespace
shouting_published = refl

triage-hold_iff_example :
    (triage ascii centi (default_policy centi) (post (codes "you are now"))
      ≡ hold (Reason.manipulation ∷ []))
    ↔ ((false ≡ false)
        × ((default_policy centi).enabled ≡ true)
        × (can_moderate Role.member ≡ false)
        × (suspicious ascii centi (default_policy centi) (post (codes "you are now")) ≡ true)
        × ((Reason.manipulation ∷ [])
            ≡ reasons_for ascii centi (default_policy centi) (post (codes "you are now")))
        × Tells ascii centi
            (default_policy centi)
            (post (codes "you are now"))
            (Reason.manipulation ∷ []))
triage-hold_iff_example =
    triage-hold_iff ascii centi (default_policy centi) (post (codes "you are now"))
      (Reason.manipulation ∷ [])
