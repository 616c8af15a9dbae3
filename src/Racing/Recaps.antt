-- ===== src/Racing/Recaps.antt =====
-- `writeResultsTable` of internal/back/notification.go: which matches a recap shows.
use kaepora.Base.{ℕ, ◌≡◌, refl, List, [], ◌∷◌, Bool, not, ltb, arith}
use kaepora.Base.Lists.{length, select, Each}
use kaepora.Base.Result.{ok}
use kaepora.Match.{MatchEntry, Match, has_ended, entry_at}
use kaepora.Racing.{RecapScope, public_recap, runner_recap, admin_recap, is_unknown, count_results}

-- How many players must have ended their race.
abbrev pub needed : RecapScope → ℕ
needed public_recap = 2
needed runner_recap = 1
needed admin_recap = 0

-- Whether enough players of the match have.
abbrev pub is_shown : RecapScope → Match → Bool
is_shown scope m = not (ltb (length (select has_ended m.entries)) (needed scope))

abbrev pub HasTwo : Match → Type 0
HasTwo m = length m.entries ≡ 2

two_entries :
    (scope : RecapScope) (m : Match) (entries : List MatchEntry)
    → m.entries ≡ entries
    → length entries ≡ 2
    → is_unknown scope m ≡ ok (not (is_shown scope m))
unfolding is_unknown entry_at select
two_entries scope m [] e h = absurd (omega arith)
two_entries scope m (a ∷ []) e h = absurd (omega arith)
two_entries public_recap m (a ∷ b ∷ []) e h = ground arith
two_entries runner_recap m (a ∷ b ∷ []) e h = ground arith
two_entries admin_recap m (a ∷ b ∷ []) e h = ground arith
two_entries scope m (a ∷ b ∷ c ∷ entries) e h = absurd (omega arith)

-- For matches of two entries each, `writeResultsTable` counts every match once: as known if enough
-- of its players have ended their race, which is both for the public recap, one for that of a
-- runner and none for that of an admin, and else as unknown.
pub count_results_lem :
    (scope : RecapScope) (matches : List Match)
    → Each HasTwo matches
    → count_results scope matches
      ≡ ok (
        length (select (is_shown scope) matches),
        length (select (λ m. not (is_shown scope m)) matches),
      )
unfolding count_results select
count_results_lem scope [] h = refl
count_results_lem scope (m ∷ matches) (two, h) =
    ground (arith, two_entries scope m m.entries refl two, count_results_lem scope matches h)
