-- ===== src/Match/Race.antt =====
-- A race as its players see it: the two entries and the match, from the pairing to the end.
-- The steps are the calls that internal/back makes: `MatchSession.start` once, and
-- `endActiveMatch` for a player whose entry has not ended (match_session.go, back_racing.go), and
-- the update of the match by `generateAndSendMatchSeed` (back_matchmaking.go), which writes it as
-- it was read after the pairing.
pub mod Verdict
use kaepora.Base.{ℕ, ◌<◌, ◌≡◌, refl, sym, subst, ◌≢◌, ◌⊎◌, Bool, true, false, ◌&&◌, not, arith}
use kaepora.Base.Result.{Result, ok, err, is_panic}
use kaepora.Clock.{Time, NullTimestamp, new_null_timestamp}
use kaepora.Match.{
  Uuid, EntryStatus, waiting, in_progress, finished, forfeited, Outcome, loss, draw, win,
  MatchEntry, Match, Ended, has_ended, is_waiting, is_in_progress, is_finished, is_forfeited,
  new_match_entry, match_has_ended, end_match, forfeit, complete, start_entry, end_race,
}

pub record Race : Type 0 where
  pub first : MatchEntry
  pub second : MatchEntry
  pub match : Match

pub data Side : Type 0 where
  one two : Side

abbrev pub entry_of : Side → Race → MatchEntry
entry_of one r = r.first
entry_of two r = r.second

-- The race after `endActiveMatch` has written the two entries and the match.
abbrev pub written : Side → Ended → Race
written one e = record { first = e.0; second = e.1; match = e.2 }
written two e = record { first = e.1; second = e.0; match = e.2 }

abbrev pub end_side : Bool → Side → Time → Race → Result Ended
end_side f one now r = end_race f now r.first r.second r.match
end_side f two now r = end_race f now r.second r.first r.match

-- The body of the loop of `MatchSession.start` for one match.
abbrev pub start_race : Time → Race → Race
unfolding new_null_timestamp start_entry
start_race now r = record {
  first = start_entry now r.first;
  second = start_entry now r.second;
  match = let m = r.match in record m { started_at = new_null_timestamp now };
}

abbrev pub opposite : Outcome → Outcome
opposite loss = win
opposite draw = draw
opposite win = loss

-- Neither player waits for the start while the other is racing or has raced.
abbrev pub InStep : EntryStatus → EntryStatus → Type 0
InStep waiting in_progress = ⊥
InStep waiting finished = ⊥
InStep in_progress waiting = ⊥
InStep finished waiting = ⊥
InStep _ _ = Unit

abbrev pub has_started : EntryStatus → Bool
has_started in_progress = true
has_started finished = true
has_started _ = false

-- An entry's timestamps say what its status says.
pub record IsDated (e : MatchEntry) : Type 0 where
  pub ended : e.ended_at.valid ≡ has_ended e
  pub started : has_started e.status ≡ true → e.started_at.valid ≡ true
  pub forfeit_never_wins : is_forfeited e.status ≡ true → e.outcome ≢ win

pub record Inv (r : Race) : Type 0 where
  pub in_step : InStep r.first.status r.second.status
  pub zero_sum : r.second.outcome ≡ opposite r.first.outcome
  pub undecided : has_ended r.first ≡ false → has_ended r.second ≡ false → r.first.outcome ≡ draw
  pub closed : match_has_ended r.match ≡ true → (has_ended r.first && has_ended r.second) ≡ true
  pub dated_first : IsDated r.first
  pub dated_second : IsDated r.second

-- The match after `generateAndSendMatchSeed` has written it as `m`: the columns of `Match.update`.
abbrev pub seeded : Match → Race → Race
seeded m r = record r {
  match = record r.match {
    started_at = m.started_at;
    ended_at = m.ended_at;
    spoiler_log = m.spoiler_log;
    generator_state = m.generator_state;
  };
}

-- The clock is past the zero time, so that a timestamp is never written as NULL.
pub data Step (r r' : Race) : Type 0 where
  starts : (now : Time) → 0 < now → r' ≡ start_race now r → Step r r'
  ends :
      (f : Bool) (s : Side) (now : Time) (e : Ended)
      → 0 < now
      → has_ended (entry_of s r) ≡ false
      → end_side f s now r ≡ ok e
      → r' ≡ written s e
      → Step r r'
  seeds : (m : Match) → match_has_ended m ≡ false → r' ≡ seeded m r → Step r r'

-- A race as the pairing of two players creates it, of a match that has not ended.
abbrev pub new_race : Time → Match → Uuid → Uuid → Race
new_race now m p1 p2 = record {
  first = new_match_entry now m.id p1;
  second = new_match_entry now m.id p2;
  match = m;
}

pub data Reach : Race → Type 0 where
  new :
      (now : Time) (m : Match) (p1 p2 : Uuid)
      → match_has_ended m ≡ false
      → Reach (new_race now m p1 p2)
  next : {r r' : Race} → Reach r → Step r r' → Reach r'

new_race-Inv :
    (now : Time) (m : Match) (p1 p2 : Uuid) → match_has_ended m ≡ false → Inv (new_race now m p1 p2)
unfolding new_match_entry has_ended match_has_ended
new_race-Inv now m p1 p2 h = ground arith

start_race-Inv : (now : Time) (r : Race) → 0 < now → Inv r → Inv (start_race now r)
unfolding has_ended match_has_ended start_entry new_null_timestamp
start_race-Inv now r h i = ground arith

end_side-Inv :
    (f : Bool) (s : Side) (now : Time) (r : Race) {e : Ended}
    → 0 < now
    → has_ended (entry_of s r) ≡ false
    → end_side f s now r ≡ ok e
    → Inv r
    → Inv (written s e)
unfolding has_ended match_has_ended end_race
end_side-Inv f one now r h live q i = ground arith
end_side-Inv f two now r h live q i = ground arith

seeded-Inv : (m : Match) (r : Race) → match_has_ended m ≡ false → Inv r → Inv (seeded m r)
unfolding has_ended match_has_ended
seeded-Inv m r unended i = ground arith

Step-Inv : {r r' : Race} → Step r r' → Inv r → Inv r'
Step-Inv {r} (starts now h e) i = subst Inv (sym e) (start_race-Inv now r h i)
Step-Inv {r} (ends f s now e h live q w) i = subst Inv (sym w) (end_side-Inv f s now r h live q i)
Step-Inv {r} (seeds m unended e) i = subst Inv (sym e) (seeded-Inv m r unended i)

-- In every reachable race the outcomes add up to zero, nobody has won or lost while both still
-- run, the match is marked as ended only when both entries have ended, an entry has an end
-- date exactly when it has ended and a start date once it has started, a forfeited entry has
-- not won, and nobody waits for the start while the other races.
pub Reach-Inv : {r : Race} → Reach r → Inv r
Reach-Inv (new now m p1 p2 h) = new_race-Inv now m p1 p2 h
Reach-Inv (next reached step) = Step-Inv step (Reach-Inv reached)

end_side-no_panic :
    (f : Bool) (s : Side) (now : Time) (r : Race) → Inv r → is_panic (end_side f s now r) ≡ false
unfolding has_ended end_race
end_side-no_panic true one now r i = ground arith
end_side-no_panic false one now r i = ground arith
end_side-no_panic true two now r i = ground arith
end_side-no_panic false two now r i = ground arith

-- In a reachable race the call that ends an entry never reaches the `panic` of `complete`, for
-- either player, whether it completes or forfeits the race.
pub Reach-no_panic :
    {r : Race} (f : Bool) (s : Side) (now : Time) → Reach r → is_panic (end_side f s now r) ≡ false
Reach-no_panic {r} f s now reached = end_side-no_panic f s now r (Reach-Inv reached)
