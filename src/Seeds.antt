-- ===== src/Seeds.antt =====
-- The seeds of the matches: `generateAndSendMatchSeed` of internal/back/back_matchmaking.go. It
-- runs outside the transaction that read the match, one call for each match.
pub mod Stale
pub mod Tests
use Prim.Native.String.{String}
use kaepora.Base.{◌≡◌, List, [], ◌∷◌, some}
use kaepora.Base.Result.{Result, ok, err}
use kaepora.Match.{Uuid, Match, Bytes}
use kaepora.Rating.{Player}
use kaepora.Store.{
  World, Action, ◌>>=◌, ◌>>◌, pure, lift, notify, transaction, Recipient, user, NotificationType,
  match_seed,
}
use kaepora.Store.Rows.{update_match}

-- `generator.Output`.
pub record Output : Type 0 where
  pub state : Bytes
  pub seed_patch : Bytes
  pub spoiler_log : Bytes

-- What the seeds take from outside: the generators by name, each of which makes an output from
-- settings and a seed, and the compression of a blob.
pub record Generators : Type 0 where
  pub new_generator : String → Result (String → String → Result Output)
  pub new_zlib_blob : Bytes → Result Bytes

module _ {F : Type 0} (generators : Generators) where
  open generators use {new_generator, new_zlib_blob}

  -- `sendMatchSeedNotification`.
  unfoldable pub send_match_seed_notification : Uuid → Player F → Player F → Action F (Unit {0})
  send_match_seed_notification match_id p1 p2 = do
    notify (record { recipient = user p1.discord_id; kind = match_seed match_id })
    notify (record { recipient = user p2.discord_id; kind = match_seed match_id })

  -- The match is the one that `generateAndSendSeeds` has read before the seed was made.
  unfoldable pub generate_and_send_match_seed : Match → Player F → Player F → Action F (Unit {0})
  unfolding transaction update_match send_match_seed_notification
  generate_and_send_match_seed match p1 p2 = do
    generate ← lift (new_generator match.generator)
    out ← lift (generate match.settings match.seed)
    spoiler_log ← lift (new_zlib_blob out.spoiler_log)
    transaction (
        update_match (record match {
          spoiler_log = spoiler_log;
          seed_patch = out.seed_patch;
          generator_state = out.state;
        }))
    send_match_seed_notification match.id p1 p2
