-- ===== src/Match/Tests.antt =====
-- A race from its pairing to its end, and a race that both players give up.
use kaepora.Base.{◌≡◌, ◌≢◌, ◌⊎◌, refl, false, [], ◌∷◌, none, arith}
use kaepora.Base.Result.{ok, err, is_panic}
use kaepora.Clock.{null_timestamp}
use kaepora.Match.{
  Match, MatchEntry, Ended, loss, win, new_match_entry, has_ended, match_has_ended, start_entry,
  end_race, winning_entry, losing_entry, get_player_and_opponent_entries,
}
use kaepora.Match.Entries.{Found, get_player_and_opponent_entries_lem, winning_entry-losing_entry}
use kaepora.Match.Race.{
  Race, one, two, new_race, start_race, end_side, written, opposite, Inv, Reach, Reach-Inv,
  Reach-no_panic, starts, ends,
}
use kaepora.Match.Race.Verdict.{History, History-verdict}

abbrev some_match : Match
some_match = record {
  id = 7;
  league_id = 1;
  match_session_id = 2;
  created_at = 5;
  started_at = null_timestamp;
  ended_at = null_timestamp;
  generator = "oot-randomizer";
  settings = "s3.json";
  seed = "seed";
  spoiler_log = none;
  generator_state = none;
  seed_patch = none;
  entries = [];
}

abbrev paired : Race
paired = new_race 5 some_match 11 12

abbrev started : Race
started = start_race 6 paired

abbrev finish_first : Ended
unfolding new_match_entry start_entry end_race
finish_first = elim (end_side false one 9 started) [
  | ok e ↦ e
  | err _ ↦ (started.first, started.second, started.match)
]

abbrev after_first : Race
unfolding finish_first
after_first = written one finish_first

finish_first_ok : end_side false one 9 started ≡ ok finish_first
unfolding finish_first
finish_first_ok = refl

abbrev paired-Reach : Reach paired
unfolding match_has_ended
paired-Reach = Reach.new 5 some_match 11 12 refl

started-Reach : Reach started
unfolding match_has_ended
started-Reach = Reach.next (Reach.new 5 some_match 11 12 refl) (starts 6 (omega arith) refl)

after_first-Reach : Reach after_first
unfolding finish_first has_ended
after_first-Reach =
    Reach.next started-Reach (ends false one 9 finish_first (omega arith) refl finish_first_ok refl)

Reach-Inv_example : Inv after_first
unfolding finish_first
Reach-Inv_example = Reach-Inv after_first-Reach

Reach-no_panic_example : is_panic (end_side false two 12 after_first) ≡ false
unfolding finish_first
Reach-no_panic_example = Reach-no_panic false two 12 after_first-Reach

after_first-History : History (record { side = one; gave_up = false } ∷ []) after_first
unfolding finish_first has_ended match_has_ended
after_first-History =
    History.ends false one 9 finish_first (omega arith) refl finish_first_ok
      (History.starts 6 (omega arith) (History.new 5 some_match 11 12 refl))

History-verdict_example : (after_first.first.outcome ≡ win) × (after_first.second.outcome ≡ loss)
unfolding finish_first
History-verdict_example = History-verdict after_first-History

abbrev with_entries : Match
unfolding finish_first
with_entries = record some_match { entries = after_first.first ∷ after_first.second ∷ [] }

get_player_and_opponent_entries_lem_example :
    Found with_entries.entries 12 (get_player_and_opponent_entries with_entries 12)
get_player_and_opponent_entries_lem_example = get_player_and_opponent_entries_lem with_entries 12

winning_entry-losing_entry_example :
    (w : MatchEntry) × (l : MatchEntry) × (winning_entry with_entries ≡ ok w)
    × (losing_entry with_entries ≡ ok l)
    × ((with_entries.entries ≡ w ∷ l ∷ []) ⊎ (with_entries.entries ≡ l ∷ w ∷ []))
    × (w.outcome ≢ loss)
    × (l.outcome ≡ opposite w.outcome)
unfolding with_entries
winning_entry-losing_entry_example =
    winning_entry-losing_entry with_entries after_first.first after_first.second refl refl
