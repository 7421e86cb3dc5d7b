-- ===== src/Selector/Rollouts/Active.antt =====
-- RetrieveActiveRollouts against a reference that goes forward: a rollout is active if it has
-- started or ended and no later one has ended for good.
use mathlib.Core.List.{append_assoc, append-nil}
use virtual_people_core_serv.Prelude.{
  Bool, true, false, not, ◌&&◌, ◌||◌, List, [], ◌∷◌, ◌++◌, ◌≡◌, refl, sym, ap, ◌∙◌, arith,
  if◌then◌else◌,
}
use virtual_people_core_serv.External.Doubles.{Doubles}
use virtual_people_core_serv.External.Calendar.{Calendar}
use virtual_people_core_serv.Selector.Rollouts.{
  ModelRollout, start_day, end_day, has_rollout_freeze_date, compare_model_rollouts, reached,
  active_backwards, reverse, active_of_sorted, retrieve_active_rollouts,
}

module _ {D : Doubles} (C : Calendar D) (day : C.CivilDay) where
  -- The rollout has ended, and no freeze date holds it back: the rollouts before it are over.
  abbrev pub supersedes : ModelRollout → Bool
  supersedes rollout = reached C day (end_day C rollout) && not (has_rollout_freeze_date C rollout)

  abbrev pub is_active : ModelRollout → Bool
  is_active rollout = reached C day (end_day C rollout) || reached C day (start_day C rollout)

  unfoldable pub any_supersedes : List ModelRollout → Bool
  any_supersedes [] = false
  any_supersedes (rollout ∷ later) = supersedes rollout || any_supersedes later

  unfoldable pub active : List ModelRollout → List ModelRollout
  active [] = []
  active (rollout ∷ later) =
      let rest = active later in
      if is_active rollout && not (any_supersedes later) then rollout ∷ rest else rest

  -- The active ones of a single rollout.
  abbrev pub active_one : ModelRollout → List ModelRollout
  active_one rollout = if is_active rollout then rollout ∷ [] else []

  active_backwards-append :
      (later : List ModelRollout) (rollout : ModelRollout)
      → active_backwards C day (later ++ (rollout ∷ []))
        ≡ active_backwards C day later ++ (if any_supersedes later then [] else active_one rollout)
  unfolding active_backwards any_supersedes
  active_backwards-append [] rollout = ground arith
  active_backwards-append (last ∷ earlier) rollout =
      let ih = active_backwards-append earlier rollout in ground (arith, ih)

  any_supersedes-append :
      (later : List ModelRollout) (rollout : ModelRollout)
      → any_supersedes (later ++ (rollout ∷ [])) ≡ any_supersedes later || supersedes rollout
  unfolding any_supersedes
  any_supersedes-append [] rollout = ground arith
  any_supersedes-append (last ∷ earlier) rollout =
      let ih = any_supersedes-append earlier rollout in ground (arith, ih)

  any_supersedes-reverse :
      (rollouts : List ModelRollout) → any_supersedes (reverse C rollouts) ≡ any_supersedes rollouts
  unfolding any_supersedes reverse
  any_supersedes-reverse [] = refl
  any_supersedes-reverse (rollout ∷ rollouts) =
      any_supersedes-append (reverse C rollouts) rollout
      ∙ ap (λ b. b || supersedes rollout) (any_supersedes-reverse rollouts)
      ∙ or_comm (any_supersedes rollouts) (supersedes rollout)
    where
      or_comm : (a b : Bool) → (a || b) ≡ (b || a)
      or_comm a b = ground arith

  reverse-append : (xs ys : List ModelRollout) → reverse C (xs ++ ys) ≡ reverse C ys ++ reverse C xs
  unfolding reverse
  reverse-append [] ys = sym (append-nil (reverse C ys))
  reverse-append (x ∷ xs) ys =
      ap (λ l. l ++ (x ∷ [])) (reverse-append xs ys)
      ∙ append_assoc (reverse C ys) (reverse C xs) (x ∷ [])

  backwards_forwards :
      (rollouts : List ModelRollout)
      → reverse C (active_backwards C day (reverse C rollouts)) ≡ active rollouts
  unfolding reverse active active_backwards
  backwards_forwards [] = refl
  backwards_forwards (rollout ∷ later) =
      ap (reverse C) (active_backwards-append (reverse C later) rollout)
      ∙ reverse-append (active_backwards C day (reverse C later)) _
      ∙ ap
          (λ l.
            reverse C (if any_supersedes (reverse C later) then [] else active_one rollout) ++ l)
          (backwards_forwards later)
      ∙ ap (λ b. reverse C (if b then [] else active_one rollout) ++ active later)
          (any_supersedes-reverse later)
      ∙ one_step (is_active rollout) (any_supersedes later)
    where
      one_step :
          (a b : Bool)
          → reverse C (if b then [] else (if a then rollout ∷ [] else [])) ++ active later
            ≡ (if a && not b then rollout ∷ active later else active later)
      one_step true true = refl
      one_step true false = refl
      one_step false true = refl
      one_step false false = refl

  -- RetrieveActiveRollouts of rollouts of which the sort has a first one gives none on a day
  -- before its start, and otherwise, in the order of the sort, the rollouts that have started
  -- or ended by the day, without those before a rollout that has ended and has no freeze date.
  pub retrieve_active_rollouts-active :
      (first : ModelRollout) (rest rollouts : List ModelRollout)
      → C.sort (compare_model_rollouts C) rollouts ≡ first ∷ rest
      → retrieve_active_rollouts C rollouts day
        ≡ (if C.before day (start_day C first) then [] else active (first ∷ rest))
  unfolding retrieve_active_rollouts active_of_sorted
  retrieve_active_rollouts-active first rest rollouts sorted = rw sorted (
      ap (λ l. if C.before day (start_day C first) then [] else l)
        (backwards_forwards (first ∷ rest)))
