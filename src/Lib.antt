-- ===== src/Lib.antt =====
-- kaepora is the ladder of a race community: players join sessions, the back end (internal/back)
-- pairs them, the two players of a match race on the same seed, and the results rank the players
-- of a league, period by period. This library models the core of that back end; what is
-- proved of it is listed at the end.
--
-- The parts and their files:
--   * Base holds what all share: the native numbers, lists, results, integers, permutations, and
--     the random source (Base/Random) with `randomInt` and `randomIndex` of
--     internal/back/back_matchmaking.go and `randomLowIndex` of internal/back/back_pair_players.go.
--     An error of Go is a value of `Error`: no rows, a public error of internal/util/errors.go,
--     an internal one, or a panic.
--   * Clock: `time.Time` as the nanoseconds since the zero time, and the nullable timestamps of
--     internal/util/sql_time_as_timestamp.go. An operation that reads the clock takes `now`.
--   * Match: internal/back/match.go and match_entry.go, the state machine of the two entries of a
--     match, and the decisions of `endActiveMatch` in internal/back/back_racing.go.
--   * Session: internal/back/match_session.go, the value of a session, without the database.
--   * Rating: the fields and the range of internal/back/player_rating.go and player.go. A float64
--     is a value of a type that comes with its operations (`Float`), and `sort.Sort` is a sorter
--     of which only is assumed that it permutes its input.
--   * Pairing: internal/back/back_pair_players.go, how the players of a session are paired, both
--     routines with every index that they compute. It takes players with ratings (Rating), draws
--     from the random source (Base/Random), and may panic.
--   * Ranking: internal/back/back_ranking.go: the rating periods in Ranking itself, the queries of
--     player_rating.go and match.go in Ranking/Ratings, the leaderboards of back_web.go
--     and bot.go in Ranking/Leaderboard and Ranking/Around, `computePeriod` in Ranking/Computed,
--     and in Ranking/Updates `updateLeagueRankings` and `Rerank`. Glicko-2 is a parameter, of which only is
--     assumed that it rates the players that it is given.
--   * Schedule: internal/back/schedule, when the sessions of a league are held: rolling.go in
--     Schedule itself, day_of_week.go in Schedule/DayOfWeek, where a time zone is a function from
--     calendar days and hours to instants, schedule.go in Schedule/Config.
--   * Leagues: internal/back/league.go, the rows of the leagues and the schedulers that they name.
--   * Players: internal/back/player.go and the wrappers of internal/back/bot.go that write a row:
--     registering and renaming a player, over Store. A name is compared by its bytes.
--   * Store: the database and what else a method of `Back` changes. `World` holds the tables, the
--     notifications sent, the calls started by `go`, the random numbers and the UUIDs; `Action` is a computation on it, and
--     `transaction` is that of internal/back/back.go. SQLite is not code of the repository: a
--     query is what its SQL says of the rows, and the engine fails only where a key is there
--     already. Foreign keys are not enforced. Store/Rows has the queries of match_session.go,
--     match.go, match_entry.go, player.go and league.go; start dates are taken to be in one zone,
--     so that their text sorts as they do.
--   * Joining: joining and leaving a session (internal/back/back_racing.go), over Store and the
--     values of Session; `getPlayerActiveSession` decides whether a player is free.
--     Joining/Calls is about any sequence of calls by which players join.
--   * Lifecycle: the tasks of internal/back/back_periodic.go that move the sessions on, and
--     `MatchSession.start`; Lifecycle/Scheduled has the creation of the next sessions, over
--     Leagues and Schedule.
--   * Tasks: `runPeriodicTasks` with the rest of internal/back/back_periodic.go, over Lifecycle,
--     Matchmaking, Seeds and Ranking. A call by `go` is recorded in the world, and what it does is
--     a definition of its own; the countdown reads the clock at instants that are given.
--   * Queries: what the web site reads through internal/back/back_web.go.
--   * Racing: the end of a race for a player, `endActiveMatch`, with its notifications; Racing/Sent
--     has the recaps of internal/back/bot.go.
--   * Matchmaking: `matchMakeSession` of internal/back/back_matchmaking.go, which drops an odd
--     player, calls Pairing, and writes the matches and their entries.
--   * Seeds: `generateAndSendMatchSeed` of internal/back/back_matchmaking.go, which runs
--     concurrently with all the other operations; the generators are parameters. Its workers, and
--     what starts them, are in Tasks.
--
-- Bounds. A loop of Go without a structural measure runs on fuel: as many rounds as players in
-- `orderedRandomPairPlayers`, a round per day up to the end of the period in `Rerank`, a round per
-- second up to the asked instants in `NextBetween` of the rolling scheduler and a call per day in
-- that of the day-of-week scheduler. Integers are mathematical: int64 nanoseconds and lengths of
-- slices stay far below the machine's bounds. `t.Unix()` of the rolling scheduler is that of
-- times from 1970 on. A draw of the random source does not fail (the code
-- panics when `crypto/rand` does).
--
-- Not modelled: the web site, the chat bot, the generators of seeds and the settings, which talk
-- to the network or print; the arithmetic of Glicko-2, which a library of its own provides; the
-- statistics of the web site.
pub mod Base
pub mod Clock
pub mod Match
pub mod Session
pub mod Rating
pub mod Pairing
pub mod Ranking
pub mod Schedule
pub mod Store
pub mod Leagues
pub mod Players
pub mod Tasks
pub mod Queries
pub mod Joining
pub mod Lifecycle
pub mod Racing
pub mod Seeds
pub mod Matchmaking
