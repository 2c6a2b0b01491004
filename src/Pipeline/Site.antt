-- ===== src/Pipeline/Site.antt =====
-- A site of one space with two posts, for the examples of the pipeline.
use notespace.Base.{ℕ, Bool, true, false, codes, List, [], ◌∷◌, none, some, ok}
use notespace.Model.{PublicId, PostState, ThreadState, ThreadKind, Role, UserState, User}
use notespace.Float.{centi}
use notespace.Moderation.{Category, Call, Verdict, ReviewReason}
use notespace.Store.{PostRow, ReviewRow, SignalRow, World}
use notespace.Store.Moderation.{ReviewPost}
use notespace.Pipeline.{Services}

abbrev pub hateful : Verdict centi
hateful = record {
  call = Call.flag;
  confidence = 95;
  categories = Category.hate ∷ [];
  rationale = codes "r";
  model = codes "m";
}

abbrev pub services : Services centi
services = record {
  parse_policy = λ config. none;
  model = codes "m";
  classify = λ input. ok hateful;
  enqueue = λ post reasons. ok tt;
}

abbrev pub post_id : PublicId
post_id = codes "p1"

abbrev pub row : PostState → PostRow
row state = record {
  id = 7;
  public_id = post_id;
  thread_id = 3;
  author_id = 2;
  body_md = codes "text";
  created_at = 100;
  state = state;
  parent_id = none;
  path = codes "0000";
  edited_at = none;
}

abbrev pub other : PostRow
other = record {
  id = 8;
  public_id = codes "p2";
  thread_id = 3;
  author_id = 4;
  body_md = codes "more";
  created_at = 101;
  state = PostState.visible;
  parent_id = none;
  path = codes "0001";
  edited_at = none;
}

abbrev pub earlier_report : ℕ → SignalRow
earlier_report user = record { post_id = 7; user_id = user; reason = none; created_at = 150 }

abbrev pub site : PostState → List (ReviewRow centi) → List SignalRow → List Bool → World centi
site state reviews signals faults = record {
  posts = row state ∷ other ∷ [];
  threads =
      record {
        id = 3;
        public_id = codes "t1";
        space_id = 1;
        space_path = codes "space/";
        kind = ThreadKind.discussion;
        url = none;
        author_id = 2;
        created_at = 90;
        title = codes "topic";
        state = ThreadState.visible;
        cache_version = 5;
        post_count = 2;
        bumped_at = 101;
      }
      ∷ [];
  spaces = record { id = 1; path = codes "space/"; name = codes "space"; config = [] } ∷ [];
  users =
      record { id = 2; name = codes "ann"; created_at = 50; role = Role.member }
      ∷ record { id = 4; name = codes "bob"; created_at = 60; role = Role.member }
      ∷ [];
  reviews = reviews;
  signals = signals;
  attempts = [];
  log = [];
  sent = [];
  faults = faults;
}

abbrev pub joined_row : PostState → ReviewPost
joined_row state = record {
  id = 7;
  public_id = post_id;
  thread_public_id = codes "t1";
  thread_title = codes "topic";
  space_id = 1;
  space_name = codes "space";
  space_config = [];
  author_id = 2;
  author_name = codes "ann";
  author_created_at = 50;
  body_md = codes "text";
  created_at = 100;
  state = state;
}

abbrev pub person : ℕ → Role → User
person id role = record { id = id; name = codes "who"; state = UserState.active; role = role }

abbrev pub flagged : ReviewRow centi
flagged = record {
  id = 1;
  post_id = 7;
  space_id = 1;
  reason = ReviewReason.classifier;
  model_verdict = some Call.flag;
  model_confidence = some 95;
  model_categories = some (Category.hate ∷ []);
  appeal_text = none;
  opened_at = 120;
  is_open = true;
  resolution = none;
  resolved_by = none;
  resolved_at = none;
}

abbrev pub pending_site : World centi
pending_site = site PostState.pending [] [] []

abbrev pub reported_site : World centi
reported_site = site PostState.visible [] (earlier_report 5 ∷ earlier_report 6 ∷ []) []

abbrev pub hidden_site : World centi
hidden_site = site PostState.hidden (flagged ∷ []) [] []

-- The third call fails: the state is not set, and the verdict is in the log.
abbrev pub failing_site : World centi
failing_site = site PostState.pending [] [] (false ∷ false ∷ false ∷ true ∷ [])
