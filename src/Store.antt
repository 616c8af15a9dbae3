-- ===== src/Store.antt =====
-- The database that internal/back works on, and what else a method of `Back` changes: the
-- notifications that it sends, the random numbers and the UUIDs that it draws. SQLite is not code
-- of the repository: a query is written as what its SQL says of the rows, an `UPDATE` as the
-- change of the rows, and the engine is taken not to fail but for a key that is there already.
pub mod Rows
pub mod Atomic
pub mod Order
pub mod Updates
use Prim.Native.String.{String}
use kaepora.Base.{
  ℕ, suc, ◌/◌, ◌*◌, ◌≡◌, List, [], ◌∷◌, ◌++◌, Option, none, some, Bool, true, false, leb,
  if◌then◌else◌,
}
use kaepora.Base.Random.{Source, Random}
use kaepora.Base.Result.{Result, ok, err, Error, no_rows}
use kaepora.Clock.{Time, NullTimestamp, second}
use kaepora.Match.{Uuid, MatchEntry, Match}
use kaepora.Rating.{PlayerRating, Player}
use kaepora.Session.{MatchSession, SessionStatus}

-- `schedule.Config`, of which only the type is looked at before the payload is parsed.
pub record ScheduleConfig : Type 0 where
  pub kind : String
  pub payload : String

pub record League : Type 0 where
  pub id : Uuid
  pub created_at : Time
  pub name : String
  pub short_code : String
  pub game_id : Uuid
  pub generator : String
  pub settings : String
  pub schedule : ScheduleConfig
  pub announce_discord_channel_id : Option String

-- A table is the list of its rows. A row of `players` has no rating of its own, a row of
-- `matches` no entries: those columns do not exist, and the fields are not read.
pub record Db (F : Type 0) : Type 0 where
  pub leagues : List League
  pub players : List (Player F)
  pub ratings : List (PlayerRating F)
  pub history : List (PlayerRating F)
  pub sessions : List MatchSession
  pub matches : List Match
  pub entries : List MatchEntry

-- Who gets a notification, and what it is about; its text is not modelled.
pub data Recipient : Type 0 where
  channel user : Option String → Recipient

pub data NotificationType : Type 0 where
  status_update : Uuid → SessionStatus → NotificationType
  match_end : MatchEntry → MatchEntry → NotificationType
  session_empty : Uuid → NotificationType
  odd_kick : NotificationType
  match_seed : Uuid → NotificationType
  recap : Uuid → ℕ → ℕ → NotificationType
  spoiler_log : Uuid → NotificationType
  countdown : Uuid → NotificationType
  leaderboard_update : Uuid → NotificationType

pub record Notification : Type 0 where
  pub recipient : Recipient
  pub kind : NotificationType

-- A call that the code starts by `go`, with what it is given.
pub data Routine (F : Type 0) : Type 0 where
  seed_generation : MatchSession → List Match → List (Uuid × Player F) → Routine F
  start_countdown : MatchSession → Routine F

-- `sent` is what went to the channel of notifications, `routines` what was started by `go`, the
-- last one first.
pub record World (F : Type 0) : Type 0 where
  pub db : Db F
  pub sent : List Notification
  pub random : Source
  pub uuids : Source
  pub routines : List (Routine F)

abbrev pub Action {ℓ} : Type 0 → Type ℓ → Type ℓ
Action F A = World F → Result A × World F

module _ {F : Type 0} where
  infixl 5 ◌>>=◌
  abbrev pub ◌>>=◌ {ℓ κ} : {A : Type ℓ} {B : Type κ} → Action F A → (A → Action F B) → Action F B
  ◌>>=◌ m f w = let (r, w') = m w in elim r [ ok a ↦ f a w' | err e ↦ (err e, w') ]

  infixl 5 ◌>>◌
  abbrev pub ◌>>◌ {ℓ} : {B : Type ℓ} → Action F (Unit {0}) → Action F B → Action F B
  m >> k = m >>= λ _. k

  abbrev pub pure {ℓ} : {A : Type ℓ} → A → Action F A
  pure a w = (ok a, w)

  abbrev pub fail {ℓ} : {A : Type ℓ} → Error → Action F A
  fail e w = (err e, w)

  abbrev pub lift {ℓ} : {A : Type ℓ} → Result A → Action F A
  lift r w = (r, w)

  -- `tx.Select`, which gives all the rows, and `tx.Get`, which gives `sql.ErrNoRows` without any.
  abbrev pub select_rows {ℓ} : {A : Type ℓ} → (Db F → A) → Action F A
  select_rows q w = (ok (q w.db), w)

  abbrev pub get_row {ℓ} : {A : Type ℓ} → (Db F → Option A) → Action F A
  get_row q w = elim (q w.db) [ some a ↦ (ok a, w) | none ↦ (err no_rows, w) ]

  -- `tx.Exec`.
  abbrev pub exec : (Db F → Db F) → Action F (Unit {0})
  exec change w = (ok tt, record w { db = change w.db })

  abbrev pub notify : Notification → Action F (Unit {0})
  notify n w = (ok tt, record w { sent = n ∷ w.sent })

  -- `go`: the call runs on its own, after what starts it or beside it.
  abbrev pub go : Routine F → Action F (Unit {0})
  go r w = (ok tt, record w { routines = r ∷ w.routines })

  -- A computation on the random numbers of the world.
  abbrev pub draw {ℓ} : {A : Type ℓ} → Random A → Action F A
  draw m w = elim (m w.random) [
    | ok (a, random) ↦ (ok a, record w { random = random })
    | err e ↦ (err e, w)
  ]

  -- `util.NewUUIDAsBlob`.
  abbrev pub new_uuid : Action F Uuid
  new_uuid w = (ok (w.uuids 0), record w { uuids = λ n. w.uuids (suc n) })

  -- `errors.Is(err, sql.ErrNoRows)`, with what is done then. Wrapping an error keeps that.
  abbrev pub on_no_rows {ℓ} : {A : Type ℓ} → Action F A → Action F A → Action F A
  on_no_rows m k w =
      let (r, w') = m w in elim r [ ok a ↦ (ok a, w') | err no_rows ↦ k w' | err e ↦ (err e, w') ]

  -- `Back.transaction`: the database is as it was after an error, and what has been sent or
  -- drawn or started stays so.
  unfoldable pub transaction {ℓ} : {A : Type ℓ} → Action F A → Action F A
  transaction callback w =
      let (r, w') = callback w in
      elim r [ ok a ↦ (ok a, w') | err e ↦ (err e, record w' { db = w.db }) ]

-- What a column of seconds keeps of a timestamp.
unfoldable pub stored : Time → Time
stored t = t / second * second

unfoldable pub stored_null : NullTimestamp → NullTimestamp
unfolding stored
stored_null t = record t { time = stored t.time }

-- `DATETIME(t)`: whole seconds.
abbrev pub date_time : Time → ℕ
date_time t = t / second

-- `ORDER BY`, for a test that puts a row before another one. Rows that it does not tell apart stay
-- as they are.
module _ {A : Type 0} (le : A → A → Bool) where
  abbrev pub insert_with : A → List A → List A
  insert_with a [] = a ∷ []
  insert_with a (b ∷ rows) = if le a b then a ∷ b ∷ rows else b ∷ insert_with a rows

  unfoldable pub order_with : List A → List A
  order_with [] = []
  order_with (a ∷ rows) = insert_with a (order_with rows)

abbrev pub order_by : {A : Type 0} → (A → ℕ) → List A → List A
order_by key = order_with (λ a b. leb (key a) (key b))

-- `UPDATE … WHERE`: the rows that the test is true of are changed.
unfoldable pub update_where : {A : Type 0} → (A → Bool) → (A → A) → List A → List A
update_where p change [] = []
update_where p change (a ∷ rows) = (if p a then change a else a) ∷ update_where p change rows
