-- ===== src/Players/Tests.antt =====
-- One player, who is renamed, and another who registers.
use kaepora.Base.{◌≡◌, refl, [], ◌∷◌, some}
use kaepora.Base.Lists.{any, find}
use kaepora.Rating.{PlayerRating, Player}
use kaepora.Store.{World, update_where}
use kaepora.Players.{update_discord_player_name, register_discord_player, null_string}
use kaepora.Players.Distinct.{AreDistinct}
use kaepora.Players.Registered.{registration, register_discord_player_lem}
use kaepora.Players.Renamed.{renaming, update_discord_player_name_lem}

abbrev blank : PlayerRating Unit
blank = record {
  player_id = 0;
  league_id = 0;
  created_at = 0;
  rating_period_started_at = 0;
  rating = tt;
  deviation = tt;
  volatility = tt;
}

abbrev link : Player Unit
link = record {
  id = 100;
  created_at = 0;
  name = "Link";
  discord_id = some "42";
  stream_url = "";
  rating = blank;
}

abbrev alone : World Unit
alone = record {
  db = record {
    leagues = [];
    players = link ∷ [];
    ratings = [];
    history = [];
    sessions = [];
    matches = [];
    entries = [];
  };
  sent = [];
  random = λ n. n;
  uuids = λ n. n;
  routines = [];
}

alone-AreDistinct : AreDistinct (link ∷ [])
unfolding any
alone-AreDistinct = record { ids = (refl, tt); names = (refl, tt); accounts = (refl, tt) }

run : Unit {0}
unfolding find any null_string update_where
run = tt

register_discord_player_lem_example :
    (register_discord_player blank 5 "43" "Zelda" alone ≡ registration "43" "Zelda" blank 5 alone)
    × AreDistinct (registration "43" "Zelda" blank 5 alone).1.db.players
unfolding run
register_discord_player_lem_example =
    register_discord_player_lem "43" "Zelda" blank 5 alone refl alone-AreDistinct

update_discord_player_name_lem_example :
    (update_discord_player_name "42" "Sheik" alone ≡ renaming "42" "Sheik" alone)
    × AreDistinct (renaming "42" "Sheik" alone).1.db.players
update_discord_player_name_lem_example =
    update_discord_player_name_lem "42" "Sheik" alone alone-AreDistinct

now_sheik : (renaming "42" "Sheik" alone).1.db.players ≡ record link { name = "Sheik" } ∷ []
unfolding run
now_sheik = refl
