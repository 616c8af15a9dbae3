-- ===== src/Match/Entries.antt =====
-- The two entries of a match seen by a player, and seen by the outcome (internal/back/match.go).
use kaepora.Base.{◌≡◌, ◌≢◌, refl, ◌⊎◌, inl, inr, List, [], ◌∷◌, arith, ==_iff, ◌==◌, Bool-cases}
use kaepora.Base.Lists.{length}
use kaepora.Base.Result.{Result, ok, err}
use kaepora.Match.{
  Uuid, loss, MatchEntry, Match, is_win, entry_at, player_and_opponent, has_won, winning_entry,
  losing_entry, get_player_and_opponent_entries,
}
use kaepora.Match.Race.{opposite}

abbrev pub Found : List MatchEntry → Uuid → Result (MatchEntry × MatchEntry) → Type 0
Found l p (ok (self, opponent)) =
    (self.player_id ≡ p) × ((l ≡ self ∷ opponent ∷ []) ⊎ (l ≡ opponent ∷ self ∷ []))
Found l p (err _) =
    (length l ≢ 2)
    ⊎ ((e0 : MatchEntry) × (e1 : MatchEntry) × (l ≡ e0 ∷ e1 ∷ [])
        × (e0.player_id ≢ p)
        × (e1.player_id ≢ p))

player_and_opponent_lem : (l : List MatchEntry) (p : Uuid) → Found l p (player_and_opponent l p)
unfolding player_and_opponent
player_and_opponent_lem (x ∷ y ∷ []) p = elim (Bool-cases (x.player_id == p)) [
  | inl e ↦ rw e ((==_iff x.player_id p).0 e, inl refl)
  | inr n ↦ elim (Bool-cases (y.player_id == p)) [
    | inl e ↦ rw (n, e) ((==_iff y.player_id p).0 e, inr refl)
    | inr k ↦ rw (n, k) (inr (x, y, refl, ground arith, ground arith))
  ]
]
player_and_opponent_lem [] p = inl (omega arith)
player_and_opponent_lem (x ∷ []) p = inl (omega arith)
player_and_opponent_lem (x ∷ y ∷ z ∷ l) p = inl (omega arith)

-- A call of `GetPlayerAndOpponentEntries` that succeeds gives the two entries of the match, the
-- player's first; one that fails does so because the match has not two entries, or because
-- neither is the player's.
pub get_player_and_opponent_entries_lem :
    (m : Match) (p : Uuid) → Found m.entries p (get_player_and_opponent_entries m p)
unfolding get_player_and_opponent_entries
get_player_and_opponent_entries_lem m p = player_and_opponent_lem m.entries p

-- Of the two entries of a match whose outcomes are opposite, `WinningEntry` and `LosingEntry` give
-- one each, the winning entry's outcome is not a loss, and the losing entry's is the opposite.
pub winning_entry-losing_entry :
    (m : Match) (e0 e1 : MatchEntry)
    → m.entries ≡ e0 ∷ e1 ∷ []
    → e1.outcome ≡ opposite e0.outcome
    → (w : MatchEntry) × (l : MatchEntry) × (winning_entry m ≡ ok w)
      × (losing_entry m ≡ ok l)
      × ((m.entries ≡ w ∷ l ∷ []) ⊎ (m.entries ≡ l ∷ w ∷ []))
      × (w.outcome ≢ loss)
      × (l.outcome ≡ opposite w.outcome)
unfolding winning_entry losing_entry has_won
winning_entry-losing_entry m e0 e1 e zero_sum = elim (Bool-cases (is_win e1.outcome)) [
  | inl won ↦
      (e1, e0, rw (e, won, entry_at), rw (e, won, entry_at), inr e, ground arith, ground arith)
  | inr lost ↦
      (e0, e1, rw (e, lost, entry_at), rw (e, lost, entry_at), inl e, ground arith, ground arith)
]
