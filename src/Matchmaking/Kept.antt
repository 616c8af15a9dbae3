-- ===== src/Matchmaking/Kept.antt =====
-- `ensureSessionIsValidForMatchMaking` of back_matchmaking.go: who stays in a session.
use kaepora.Base.{ℕ, suc, ◌<◌, ◌∙◌, sym, ◌-◌, ◌%◌, ◌≡◌, refl, ap, List, [], ◌∷◌, some, true, arith}
use kaepora.Base.Lists.{length, get_elem?, has, IsNodup}
use kaepora.Match.{Uuid}
use kaepora.Session.{without}

-- The players two by two: an odd one is left out.
abbrev pub kept : List Uuid → List Uuid
kept [] = []
kept (a ∷ []) = []
kept (a ∷ b ∷ ids) = a ∷ b ∷ kept ids

pub kept-even : (ids : List Uuid) → length ids % 2 ≡ 0 → kept ids ≡ ids
kept-even [] h = refl
kept-even (a ∷ []) h = absurd (omega arith)
kept-even (a ∷ b ∷ ids) h = ap (λ l. a ∷ b ∷ l) (kept-even ids (omega arith))

-- The last of an odd number of players.
pub record OddLast (ids : List Uuid) : Type 0 where
  pub last : Uuid
  pub at_end : get_elem? ids (length ids - 1) ≡ some last
  pub inside : has last ids ≡ true
  pub removed : without last ids ≡ kept ids

suc-minus : (n : ℕ) → suc n - 1 ≡ n
suc-minus n = omega arith

shifted :
    (a b x : Uuid) (ids : List Uuid)
    → 0 < length ids
    → get_elem? ids (length ids - 1) ≡ some x
    → get_elem? (a ∷ b ∷ ids) (length (a ∷ b ∷ ids) - 1) ≡ some x
shifted a b x [] some_left e = absurd (omega arith)
shifted a b x (c ∷ ids) some_left e =
    ap (get_elem? (a ∷ b ∷ c ∷ ids)) (suc-minus (suc (suc (length ids))))
    ∙ ap (get_elem? (c ∷ ids)) (sym (suc-minus (length ids)))
    ∙ e

pub odd_last : (ids : List Uuid) → length ids % 2 ≡ 1 → IsNodup ids → OddLast ids
unfolding has without
odd_last [] h nodup = absurd (omega arith)
odd_last (a ∷ []) h nodup = record {
  last = a;
  at_end = refl;
  inside = ground arith;
  removed = ground arith;
}
odd_last (a ∷ b ∷ ids) h (fresh_a, (fresh_b, nodup)) =
    let rec = odd_last ids (omega arith) nodup in
    record {
      last = rec.last;
      at_end = shifted a b rec.last ids (omega arith) rec.at_end;
      inside = ground (arith, rec.inside);
      removed = ground (arith, rec.inside, rec.removed);
    }
