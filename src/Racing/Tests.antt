-- ===== src/Racing/Tests.antt =====
-- The recap of two matches: one player of the first has ended the race.
use kaepora.Base.{◌≡◌, refl, [], ◌∷◌, none, not}
use kaepora.Base.Lists.{length, select}
use kaepora.Base.Result.{ok}
use kaepora.Clock.{null_timestamp}
use kaepora.Match.{MatchEntry, Match, new_match_entry, finished}
use kaepora.Racing.{runner_recap, count_results}
use kaepora.Racing.Recaps.{is_shown, count_results_lem}

abbrev entry : MatchEntry
unfolding new_match_entry
entry = new_match_entry 5 30 1

abbrev half_done : Match
half_done = record {
  id = 30;
  league_id = 10;
  match_session_id = 20;
  created_at = 0;
  started_at = null_timestamp;
  ended_at = null_timestamp;
  generator = "test";
  settings = "s3.json";
  seed = "abc";
  spoiler_log = none;
  generator_state = none;
  seed_patch = none;
  entries = record entry { status = finished } ∷ record entry { player_id = 2 } ∷ [];
}

abbrev running : Match
running = record half_done { id = 31; entries = entry ∷ entry ∷ [] }

one_of_two : count_results runner_recap (half_done ∷ running ∷ []) ≡ ok (1, 1)
unfolding count_results new_match_entry
one_of_two = refl

count_results_lem_example :
    count_results runner_recap (half_done ∷ running ∷ [])
    ≡ ok (
      length (select (is_shown runner_recap) (half_done ∷ running ∷ [])),
      length (select (λ m. not (is_shown runner_recap m)) (half_done ∷ running ∷ [])),
    )
count_results_lem_example =
    count_results_lem runner_recap (half_done ∷ running ∷ []) (refl, (refl, tt))
