-- ===== src/Match/Race/Verdict.antt =====
-- Who wins a race, told from the order of its endings alone, and that the outcomes which
-- `MatchEntry.forfeit` and `MatchEntry.complete` write agree with it.
use kaepora.Base.{◌<◌, ◌≡◌, Bool, true, false, List, [], ◌∷◌, ◌&&◌, arith}
use kaepora.Base.Result.{ok}
use kaepora.Clock.{Time}
use kaepora.Match.{
  Uuid, EntryStatus, finished, forfeited, Outcome, loss, draw, win, Match, Ended, has_ended,
  new_match_entry, match_has_ended, start_entry, end_race,
}
use kaepora.Match.Race.{
  Race, Side, one, two, entry_of, written, end_side, start_race, opposite, new_race,
}

-- A player ends the race by finishing it, or by a forfeit.
pub record Ending : Type 0 where
  pub side : Side
  pub gave_up : Bool

-- The endings of a race that the calls made, the latest first.
pub data History : List Ending → Race → Type 0 where
  new :
      (now : Time) (m : Match) (p1 p2 : Uuid)
      → match_has_ended m ≡ false
      → History [] (new_race now m p1 p2)
  starts :
      {h : List Ending} {r : Race} (now : Time)
      → 0 < now
      → History h r
      → History h (start_race now r)
  ends :
      {h : List Ending} {r : Race} (f : Bool) (s : Side) (now : Time) (e : Ended)
      → 0 < now
      → has_ended (entry_of s r) ≡ false
      → end_side f s now r ≡ ok e
      → History h r
      → History (record { side = s; gave_up = f } ∷ h) (written s e)

abbrev wins : Side → Outcome
wins one = win
wins two = loss

abbrev loses : Side → Outcome
loses one = loss
loses two = win

-- The first player's outcome. A finisher beats whoever has not finished before, and a player who
-- gave up loses to one who has not.
abbrev pub verdict : List Ending → Outcome
verdict [] = draw
verdict (e ∷ []) = elim e.gave_up [ true ↦ loses e.side | false ↦ wins e.side ]
verdict (e ∷ d ∷ _) = elim d.gave_up [
  | false ↦ wins d.side
  | true ↦ elim e.gave_up [ true ↦ draw | false ↦ loses d.side ]
]

abbrev same_side : Side → Side → Bool
same_side one one = true
same_side two two = true
same_side _ _ = false

abbrev ended_as : Bool → EntryStatus
ended_as true = forfeited
ended_as false = finished

-- What the history says of the entries and the match.
abbrev Tracks : List Ending → Race → Type 0
Tracks [] r =
    (has_ended r.first ≡ false) × (has_ended r.second ≡ false) × (match_has_ended r.match ≡ false)
Tracks (e ∷ []) r =
    ((entry_of e.side r).status ≡ ended_as e.gave_up)
    × (match_has_ended r.match ≡ false)
    × ((has_ended r.first && has_ended r.second) ≡ false)
Tracks (e ∷ d ∷ []) r =
    ((entry_of e.side r).status ≡ ended_as e.gave_up)
    × ((entry_of d.side r).status ≡ ended_as d.gave_up)
    × (same_side e.side d.side ≡ false)
    × (match_has_ended r.match ≡ true)
Tracks _ r = ⊥

abbrev Agrees : List Ending → Race → Type 0
Agrees h r = Tracks h r × (r.first.outcome ≡ verdict h) × (r.second.outcome ≡ opposite (verdict h))

new_race-Agrees :
    (now : Time) (m : Match) (p1 p2 : Uuid)
    → match_has_ended m ≡ false
    → Agrees [] (new_race now m p1 p2)
unfolding new_match_entry has_ended match_has_ended
new_race-Agrees now m p1 p2 h = ground arith

start_race-Agrees :
    (h : List Ending) (now : Time) (r : Race) → Agrees h r → Agrees h (start_race now r)
unfolding has_ended match_has_ended start_entry
start_race-Agrees [] now r i = ground arith
start_race-Agrees (e ∷ []) now r i = ground arith
start_race-Agrees (e ∷ d ∷ []) now r i = ground arith
start_race-Agrees (e ∷ d ∷ c ∷ h) now r i = absurd i.0

end_side-Agrees :
    (h : List Ending) (f : Bool) (s : Side) (now : Time) (r : Race) {e : Ended}
    → 0 < now
    → has_ended (entry_of s r) ≡ false
    → end_side f s now r ≡ ok e
    → Agrees h r
    → Agrees (record { side = s; gave_up = f } ∷ h) (written s e)
unfolding has_ended match_has_ended end_race
end_side-Agrees [] f one now r h live q i = ground arith
end_side-Agrees [] f two now r h live q i = ground arith
end_side-Agrees (e ∷ []) f one now r h live q i = ground arith
end_side-Agrees (e ∷ []) f two now r h live q i = ground arith
end_side-Agrees (e ∷ d ∷ []) f one now r h live q i = ground arith
end_side-Agrees (e ∷ d ∷ []) f two now r h live q i = ground arith
end_side-Agrees (e ∷ d ∷ c ∷ h) f s now r _ live q i = absurd i.0

History-Agrees : {h : List Ending} {r : Race} → History h r → Agrees h r
History-Agrees (new now m p1 p2 h) = new_race-Agrees now m p1 p2 h
History-Agrees (starts {h} {r} now pos past) = start_race-Agrees h now r (History-Agrees past)
History-Agrees (ends {h} {r} f s now e pos live q past) =
    end_side-Agrees h f s now r pos live q (History-Agrees past)

-- After any calls that start the race and end its entries, in any order, the outcomes of the two
-- entries are those of the verdict on the order of the endings: a draw while nobody has ended or
-- if both gave up, and else a win of the first to finish or of the only one who has not given up.
pub History-verdict :
    {h : List Ending} {r : Race}
    → History h r
    → (r.first.outcome ≡ verdict h) × (r.second.outcome ≡ opposite (verdict h))
History-verdict past = ((History-Agrees past).1, (History-Agrees past).2)
