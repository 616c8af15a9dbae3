-- ===== src/Ranking/Around/Tests.antt =====
-- Four players of a league, one of whom has joined a race that has not started.
use kaepora.Base.{◌-◌, ◌*◌, ltb, false, ℕ, ◌≡◌, refl, List, [], ◌∷◌, map, some, Bool}
use kaepora.Base.Int.{ℤ, pos}
use kaepora.Base.Lists.{find, any}
use kaepora.Base.Result.{Result, ok, err, panic}
use kaepora.Match.{waiting, draw}
use kaepora.Rating.{Float, PlayerRating, Player}
use kaepora.Store.{World}
use kaepora.Matchmaking.Tests.{setting}
use kaepora.Pairing.Tests.{rated}
use kaepora.Ranking.Updates.Tests.{raced, lost}
use kaepora.Ranking.Leaderboard.{
  LeaderboardEntry, LeaderboardSetting, get_leaderboard_for_shortcode,
}
use kaepora.Ranking.Around.{get_top_around_player, get_leaderboards_for_discord_user}

-- Whole ratings, of which none here is below zero.
abbrev less : ℤ → ℤ → Bool
less (pos a) (pos b) = ltb a b
less _ _ = false

abbrev minus : ℤ → ℤ → ℤ
minus (pos a) (pos b) = pos (a - b)
minus a _ = a

abbrev times : ℤ → ℤ → ℤ
times (pos a) (pos b) = pos (a * b)
times a _ = a

abbrev plain : Float ℤ
plain = record {
  add = λ a b. a;
  sub = minus;
  mul = times;
  neg = λ a. a;
  lt = less;
  zero = pos 0;
  two = pos 2;
  to_int = λ a. a;
}

abbrev board : LeaderboardSetting ℤ
board = record { float = plain; deviation_threshold = pos 200; banned_user_ids = [] }

abbrev row : ℕ → ℕ → PlayerRating ℤ
row id rating = record (rated id (pos rating) (pos 50)).rating { player_id = id; league_id = 10 }

abbrev member : ℕ → Player ℤ
member id = record (rated id (pos 0) (pos 0)) { discord_id = some "account" }

abbrev four : World ℤ
four = record raced {
  db = record raced.db {
    players = member 1 ∷ member 2 ∷ member 3 ∷ member 4 ∷ [];
    ratings = row 1 1490 ∷ row 2 1500 ∷ row 3 1510 ∷ row 4 1520 ∷ [];
    entries = record lost { player_id = 1; status = waiting; outcome = draw } ∷ [];
  };
}

abbrev ratings_of : Result (List (LeaderboardEntry ℤ)) → List ℤ
ratings_of (ok l) = map (λ e. e.rating) l
ratings_of (err e) = []

run : Unit {0}
unfolding find any get_top_around_player get_leaderboards_for_discord_user
run = tt

-- Those above come first, the nearest of them at the top; then the player, and those below.
not_in_order :
    ratings_of (get_top_around_player setting board 0 (member 2) 10 four).0
    ≡ pos 1510 ∷ pos 1520 ∷ pos 1500 ∷ pos 1490 ∷ []
unfolding run
not_in_order = refl

-- A leaderboard of fewer players than twenty.
too_few :
    (get_leaderboards_for_discord_user setting board (λ n. n) 0 "account" "std" four).0
    ≡ err (panic "slice bounds out of range")
unfolding run
too_few = refl

abbrev draws_of : Result (List (LeaderboardEntry ℤ)) → List ℕ
draws_of (ok l) = map (λ e. e.draws) l
draws_of (err e) = []

-- The race that has not started counts as a draw.
not_raced : draws_of (get_leaderboard_for_shortcode board "std" (pos 200) four).0 ≡ 1 ∷ []
unfolding run
not_raced = refl
