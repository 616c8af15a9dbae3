-- ===== src/Tasks.antt =====
-- internal/back/back_periodic.go: what runs every minute, composed of the tasks; `doMatchMaking`
-- and the generation of seeds of back_matchmaking.go, and the countdown of a session. Calls that
-- the code starts by `go` are kept in the world, and each is a definition of its own here.
pub mod Late
pub mod Tests
use kaepora.Base.{
  ℕ, ◌+◌, ◌-◌, ◌*◌, ◌≡◌, List, [], ◌∷◌, Option, none, some, Bool, true, false, leb, ltb, ◌==◌, ◌&&◌,
  if◌then◌else◌,
}
use kaepora.Base.Lists.{find, has}
use kaepora.Base.Result.{Result, ok, err, Error, internal, panic}
use kaepora.Clock.{Time, second, minute}
use kaepora.Match.{Uuid, MatchEntry, Match, entry_at}
use kaepora.Pairing.{Platform}
use kaepora.Rating.{Player}
use kaepora.Session.{MatchSession, in_progress, closed}
use kaepora.Store.{
  World, Action, Routine, seed_generation, start_countdown, go, ◌>>=◌, ◌>>◌, pure, fail, lift,
  notify, transaction, channel, countdown,
}
use kaepora.Store.Rows.{get_league_by_id, get_player_by_id, get_matches_by_session_id}
use kaepora.Schedule.Config.{Unmarshal}
use kaepora.Schedule.DayOfWeek.{LoadLocation}
use kaepora.Lifecycle.{
  for_each, send_session_status_update_notification, make_match_sessions_joinable,
  make_match_sessions_preparing, get_match_sessions_to_start, start_session, close_match_sessions,
}
use kaepora.Lifecycle.Scheduled.{create_next_scheduled_match_sessions}
use kaepora.Matchmaking.{Setting, match_make_session}
use kaepora.Racing.{public_recap, send_session_recap_notification}
use kaepora.Ranking.Leaderboard.{LeaderboardSetting, send_leaderboard_update_notification}
use kaepora.Ranking.Ratings.{Glicko}
use kaepora.Ranking.Updates.{update_league_rankings}
use kaepora.Seeds.{Generators, generate_and_send_match_seed}

-- `map[util.UUIDAsBlob]Player`, as the list of its entries.
abbrev pub PlayerMap : Type 0 → Type 0
PlayerMap F = List (Uuid × Player F)

abbrev pub put_player : {F : Type 0} → Player F → PlayerMap F → PlayerMap F
put_player p [] = (p.id, p) ∷ []
put_player p (e ∷ players) = if e.0 == p.id then (p.id, p) ∷ players else e ∷ put_player p players

-- `players[id]`, the zero value for a key that is not there.
abbrev player_of : {F : Type 0} → Player F → PlayerMap F → Uuid → Player F
player_of zero [] id = zero
player_of zero (e ∷ players) id = if e.0 == id then e.1 else player_of zero players id

-- An error that is only logged.
abbrev pub logged : {F A : Type 0} → Action F A → Action F (Unit {0})
logged m w = (ok tt, (m w).1)

module _ {F : Type 0} where
  -- The loop of `generateAndSendSeeds` over the matches and their two entries.
  unfoldable pub fetch_players : List Match → PlayerMap F → Action F (PlayerMap F)
  unfolding entry_at get_player_by_id
  fetch_players [] players = pure players
  fetch_players (m ∷ matches) players = do
    e1 ← lift (entry_at m 0)
    p1 ← get_player_by_id e1.player_id
    e2 ← lift (entry_at m 1)
    p2 ← get_player_by_id e2.player_id
    fetch_players matches (put_player p2 (put_player p1 players))

  unfoldable pub generate_and_send_seeds : MatchSession → Action F (Unit {0})
  unfolding get_matches_by_session_id fetch_players
  generate_and_send_seeds session = do
    matches ← get_matches_by_session_id session.id
    elim matches [
      | [] ↦ fail (internal "attempted to generate seeds for 0 matches")
      | m ∷ rest ↦ do
        players ← fetch_players (m ∷ rest) []
        go (seed_generation session (m ∷ rest) players)
    ]

  -- What is sent to the pool of workers: a match with its two players.
  unfoldable pub seed_jobs :
      Player F → List Match → PlayerMap F → Result (List (Match × Player F × Player F))
  unfolding entry_at
  seed_jobs zero [] players = ok []
  seed_jobs zero (m ∷ matches) players =
      let rest = seed_jobs zero matches players in
      elim (entry_at m 0) [
        | err e ↦ err e
        | ok e1 ↦ elim (entry_at m 1) [
          | err e ↦ err e
          | ok e2 ↦ elim rest [
            | err e ↦ err e
            | ok jobs ↦ ok (
                (m, player_of zero players e1.player_id, player_of zero players e2.player_id)
                ∷ jobs)
          ]
        ]
      ]

  -- `doParallelSeedGeneration`: the workers take the jobs in any order, which is given here, and
  -- log an error. A job is one transaction.
  unfoldable pub do_parallel_seed_generation :
      Generators
      → (List (Match × Player F × Player F) → List (Match × Player F × Player F))
      → Player F
      → List Match
      → PlayerMap F
      → Action F (Unit {0})
  unfolding seed_jobs generate_and_send_match_seed
  do_parallel_seed_generation generators order zero matches players = do
    jobs ← lift (seed_jobs zero matches players)
    for_each (λ (m, p1, p2). logged (generate_and_send_match_seed generators m p1 p2)) (order jobs)

  unfoldable pub start_match_sessions : Time → Action F (Unit {0})
  unfolding get_match_sessions_to_start
  start_match_sessions now = do
    sessions ← transaction (get_match_sessions_to_start now)
    for_each (λ s. go (start_countdown s)) sessions

  unfoldable pub send_session_countdown_notification : MatchSession → Action F (Unit {0})
  unfolding get_league_by_id
  send_session_countdown_notification s = do
    league ← get_league_by_id s.league_id
    notify
        (record { recipient = channel league.announce_discord_channel_id; kind = countdown s.id })

-- `countdowns`, and the first of them that is due.
abbrev pub countdowns : List Time
countdowns =
    minute
    ∷ 30 * second
    ∷ 10 * second
    ∷ 5 * second
    ∷ 4 * second
    ∷ 3 * second
    ∷ 2 * second
    ∷ second
    ∷ []

unfoldable pub due_countdown : Time → Time → Option Time
unfolding find
due_countdown min delta = find (λ v. ltb v min && leb delta v) countdowns

module _ {F : Type 0} where
  -- The loop of `countdownAndStartMatchSession`, for the instants at which it reads the clock. It
  -- gives whether the start was reached. The notice of the start is sent by another routine.
  unfoldable pub countdown_loop : MatchSession → Time → List Time → Action F Bool
  unfolding due_countdown
  countdown_loop s min [] = pure false
  countdown_loop s min (now ∷ later) =
      if leb s.start_date now
      then (do
        logged (
            transaction
              (send_session_status_update_notification (record s { status = in_progress })))
        pure true)
      else elim (due_countdown min (s.start_date - now)) [
        | none ↦ countdown_loop s min later
        | some v ↦ do
          logged (transaction (send_session_countdown_notification s))
          countdown_loop s v later
      ]

  -- `b.countingDown` holds the sessions whose countdown has begun, and is given back. The clock is
  -- read at `start` once more for the start itself.
  unfoldable pub countdown_and_start_match_session :
      List Uuid → List Time → Time → MatchSession → Action F (List Uuid)
  unfolding has countdown_loop
  countdown_and_start_match_session counting_down instants start s =
      if has s.id counting_down then pure counting_down else (do
        reached ← countdown_loop s (minute + 1) instants
        (if reached then logged (transaction (start_session start s)) else pure tt)
        pure (s.id ∷ counting_down))

  -- The `recover` of `runPeriodicTasks`: a panic is logged, and is no error then.
  abbrev recovered : Action F (Unit {0}) → Action F (Unit {0})
  recovered m w =
      let (r, w') = m w in
      elim r [ ok a ↦ (ok a, w') | err (panic s) ↦ (ok tt, w') | err e ↦ (err e, w') ]

module _ {F : Type 0} (setting : Setting F) (platform : Platform F) where
  -- The body of the loop of `doMatchMaking`.
  unfoldable pub match_make_and_generate : Time → MatchSession → Action F (Unit {0})
  unfolding match_make_session generate_and_send_seeds
  match_make_and_generate now s = do
    match_make_session setting platform now s
    generate_and_send_seeds s

  unfoldable pub do_match_making : Time → List MatchSession → Action F (Unit {0})
  do_match_making now sessions = transaction (for_each (match_make_and_generate now) sessions)

module _ {F : Type 0} (setting : Setting F) (glicko : Glicko F) where
  -- The second transaction of `closeMatchSessionsAndUpdateRanks`.
  unfoldable pub update_ranks : Time → List (MatchSession × List Match) → Action F (Unit {0})
  update_ranks now ended =
      transaction
        (for_each (λ p. update_league_rankings setting glicko now p.0.league_id now) ended)

module _ {F : Type 0} (setting : Setting F) (glicko : Glicko F) (board : LeaderboardSetting F) where
  -- The body of the loop of the third transaction.
  unfoldable pub send_closed_notifications : MatchSession × List Match → Action F (Unit {0})
  send_closed_notifications (s, matches) = do
    send_session_status_update_notification (record s { status = closed })
    send_session_recap_notification (record s { status = closed }) matches public_recap none
    send_leaderboard_update_notification board s.league_id

  unfoldable pub close_match_sessions_and_update_ranks : Time → Action F (Unit {0})
  unfolding close_match_sessions update_ranks send_closed_notifications
  close_match_sessions_and_update_ranks now = do
    ended ← close_match_sessions now
    update_ranks setting glicko now ended
    transaction (for_each send_closed_notifications ended)

-- `runPeriodicTasks`. Each task reads the clock anew.
module _ {F : Type 0} (unmarshal : Unmarshal) (load_location : LoadLocation) (setting : Setting F)
    (platform : Platform F) (glicko : Glicko F) (board : LeaderboardSetting F) where
  unfoldable pub run_periodic_tasks : (ℕ → Time) → Action F (Unit {0})
  unfolding create_next_scheduled_match_sessions make_match_sessions_joinable
      make_match_sessions_preparing do_match_making start_match_sessions
      close_match_sessions_and_update_ranks
  run_periodic_tasks clock = recovered (do
    create_next_scheduled_match_sessions unmarshal load_location (clock 0)
    make_match_sessions_joinable (clock 1)
    sessions ← make_match_sessions_preparing (clock 2)
    do_match_making setting platform (clock 3) sessions
    start_match_sessions (clock 4)
    close_match_sessions_and_update_ranks setting glicko board (clock 5))
