-- ===== src/Seeds/Stale.antt =====
-- What a seed that is done writes to the row of its match.
use kaepora.Base.{◌≡◌, refl, subst, ◌⊎◌, inl, inr, some, ◌==◌, arith}
use kaepora.Base.Lists.{find}
use kaepora.Base.Result.{Result, Error, ok, err}
use kaepora.Match.{Match, ensure_not_null}
use kaepora.Rating.{Player}
use kaepora.Store.{Db, World, transaction, stored_null}
use kaepora.Store.Rows.{update_match}
use kaepora.Store.Updates.{find-update_where}
use kaepora.Seeds.{Generators, generate_and_send_match_seed, send_match_seed_notification}

Result-cases {ℓ} :
    {A : Type ℓ} (r : Result A) → ((e : Error) × (r ≡ err e)) ⊎ ((a : A) × (r ≡ ok a))
Result-cases (err e) = inl (e, refl)
Result-cases (ok a) = inr (a, refl)

module _ {F : Type 0} where
  -- The row of a match holds the dates of one that was read earlier.
  abbrev pub HasDatesOf : Match → Db F → Type 0
  HasDatesOf match db =
      (r : Match) × (find (λ m. m.id == match.id) db.matches ≡ some r)
      × (r.started_at ≡ stored_null match.started_at)
      × (r.ended_at ≡ stored_null match.ended_at)

  update_match-HasDatesOf :
      (m row : Match) (w : World F)
      → find (λ r. r.id == m.id) w.db.matches ≡ some row
      → HasDatesOf m (update_match m w).1.db
  unfolding update_match
  update_match-HasDatesOf m row w found = (
    record row {
      started_at = stored_null m.started_at;
      ended_at = stored_null m.ended_at;
      spoiler_log = (ensure_not_null m).spoiler_log;
      generator_state = (ensure_not_null m).generator_state;
    },
    find-update_where (λ r. r.id) m.id _ w.db.matches row (λ r. refl) found,
    refl,
    refl,
  )

  update_match-ok : (m : Match) (w : World F) → (update_match m w).0 ≡ ok tt
  unfolding update_match
  update_match-ok m w = refl

  module _ (generators : Generators) (match : Match) (p1 p2 : Player F) (w w' : World F) where
    -- When the seed of a match is done, the start and the end of the race in its row are those of
    -- the match that was read before the seed was made, whatever the row has held since then: a
    -- race that both players have ended meanwhile is written as not ended.
    pub generate_and_send_match_seed-stale :
        (now_stored : Match)
        → find (λ r. r.id == match.id) w.db.matches ≡ some now_stored
        → generate_and_send_match_seed generators match p1 p2 w ≡ (ok tt, w')
        → HasDatesOf match w'.db
    unfolding generate_and_send_match_seed transaction send_match_seed_notification
    generate_and_send_match_seed-stale now_stored found goes =
        elim (Result-cases (generators.new_generator match.generator)) [
          | inl (e, fails) ↦ absurd (ground arith)
          | inr (generate, e1) ↦ elim (Result-cases (generate match.settings match.seed)) [
            | inl (e, fails) ↦ absurd (ground arith)
            | inr (out, e2) ↦ elim (Result-cases (generators.new_zlib_blob out.spoiler_log)) [
              | inl (e, fails) ↦ absurd (ground arith)
              | inr (spoiler_log, e3) ↦
                  let m = record match {
                    spoiler_log = spoiler_log;
                    seed_patch = out.seed_patch;
                    generator_state = out.state;
                  } in
                  subst (HasDatesOf match) {x = (update_match m w).1.db} {y = w'.db}
                    (ground (arith, update_match-ok m w))
                    (update_match-HasDatesOf m now_stored w found)
            ]
          ]
        ]
