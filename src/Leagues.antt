-- ===== src/Leagues.antt =====
-- internal/back/league.go, but for the two queries that Store/Rows has.
pub mod Deleted
pub mod Tests
use Prim.Native.String.{String}
use text.Mathlib.Text
use Prim.Native.String
use kaepora.Base.{List, [], ◌∷◌, ◌++◌, Option, none, Bool, not, ◌&&◌, ◌||◌, ◌==◌, if◌then◌else◌}
use kaepora.Base.Lists.{select, any}
use kaepora.Base.Result.{internal}
use kaepora.Clock.{Time}
use kaepora.Match.{Uuid}
use kaepora.Store.{
  League, ScheduleConfig, Db, Action, ◌>>◌, fail, select_rows, exec, stored, order_with,
  update_where,
}
use kaepora.Schedule.Config.{Scheduler, Unmarshal, new_scheduler}

unfoldable pub new_league : Uuid → Time → String → String → Uuid → String → String → League
new_league id now name short_code game_id generator settings = record {
  id = id;
  created_at = now;
  name = name;
  short_code = short_code;
  game_id = game_id;
  generator = generator;
  settings = settings;
  schedule = record { kind = ""; payload = "" };
  announce_discord_channel_id = none;
}

-- `League.Scheduler`: an error is logged, and what came with it is given back.
unfoldable pub league_scheduler : Unmarshal → League → Option Scheduler
unfolding new_scheduler
league_scheduler unmarshal l = (new_scheduler unmarshal l.schedule).0

-- `ORDER BY League.Name DESC`: by the bytes of the names.
abbrev pub name_desc : League → League → Bool
name_desc a b = Text.is_le (String.compare b.name a.name)

module _ {F : Type 0} where
  -- `League.insert`; the id and the short code are unique.
  unfoldable pub insert_league : League → Action F (Unit {0})
  unfolding any stored
  insert_league l w =
      if any (λ r. r.id == l.id || Text.◌==◌ r.short_code l.short_code) w.db.leagues
      then fail (internal "UNIQUE constraint failed") w
      else exec
          (λ db. record db {
            leagues = db.leagues ++ record l { created_at = stored l.created_at } ∷ [];
          })
          w

  -- `League.update`; another league may have the short code already.
  unfoldable pub update_league : League → Action F (Unit {0})
  unfolding any update_where
  update_league l w =
      if any (λ r. not (r.id == l.id) && Text.◌==◌ r.short_code l.short_code) w.db.leagues
        && any (λ r. r.id == l.id) w.db.leagues
      then fail (internal "UNIQUE constraint failed: League.ShortCode") w
      else exec
          (λ db. record db {
            leagues =
                update_where (λ r. r.id == l.id)
                  (λ r. record l { id = r.id; created_at = r.created_at }) db.leagues;
          })
          w

  unfoldable pub get_leagues : Action F (List League)
  unfolding order_with
  get_leagues = select_rows (λ db. order_with name_desc db.leagues)

  -- `deleteLeague`, one statement after the other.
  unfoldable pub delete_league : Uuid → Action F (Unit {0})
  unfolding select any
  delete_league id = do
    exec (λ db. record db { history = select (λ r. not (r.league_id == id)) db.history })
    exec (λ db. record db { ratings = select (λ r. not (r.league_id == id)) db.ratings })
    exec (λ db. record db {
      entries =
          select (λ e. not (any (λ m. m.id == e.match_id && m.league_id == id) db.matches))
            db.entries;
    })
    exec (λ db. record db { matches = select (λ m. not (m.league_id == id)) db.matches })
    exec (λ db. record db { sessions = select (λ s. not (s.league_id == id)) db.sessions })
    exec (λ db. record db { leagues = select (λ l. not (l.id == id)) db.leagues })
