-- ===== src/Selector/VidModelSelector/Selected.antt =====
-- Which rollouts are active on a day, and which of their releases GetModelRelease selects.
use Prim.Native.String.{String}
use virtual_people_core_serv.Prelude.{
  Bool, true, false, List, [], ◌∷◌, ◌++◌, ◌≡◌, refl, ap, ◌⊎◌, inl, inr, Any, All, arith, Bool-cases,
}
use virtual_people_core_serv.External.Calendar.{Calendar, SortKeeps, BeforeIsOrder}
use virtual_people_core_serv.External.Doubles.{Doubles}
use virtual_people_core_serv.External.Events.{Platform}
use virtual_people_core_serv.Selector.Rollouts.{
  ModelRollout, ModelReleasePercentile, start_day, end_day, compare_model_rollouts, reached,
  active_backwards, reverse, active_of_sorted, retrieve_active_rollouts,
}
use virtual_people_core_serv.Selector.VidModelSelector.{reduced_event_id, select_release}

module _ {D : Doubles} (C : Calendar D) where
  -- The rollout stands in the list.
  abbrev pub Stands : ModelRollout → List ModelRollout → Type 0
  Stands r l = Any (λ y. r ≡ y) l

  Stands-append :
      (r : ModelRollout) (k l : List ModelRollout) → Stands r (k ++ l) → Stands r k ⊎ Stands r l
  Stands-append r [] l m = inr m
  Stands-append r (x ∷ k) l m = elim m [
    | inl e ↦ inl (inl e)
    | inr m' ↦ elim (Stands-append r k l m') [ inl h ↦ inl (inr h) | inr h ↦ inr h ]
  ]

  Stands-reverse : (r : ModelRollout) (l : List ModelRollout) → Stands r (reverse C l) → Stands r l
  unfolding reverse
  Stands-reverse r [] m = m
  Stands-reverse r (x ∷ l) m = elim (Stands-append r (reverse C l) (x ∷ []) m) [
    | inl h ↦ inr (Stands-reverse r l h)
    | inr h ↦ elim h [ inl e ↦ inl e | inr n ↦ absurd n ]
  ]

  -- The days of each rollout are in order: it does not end before it starts.
  abbrev pub InOrder : ModelRollout → Type 0
  InOrder r = C.before (end_day C r) (start_day C r) ≡ false

  active_backwards-Stands :
      (day : C.CivilDay) (r : ModelRollout) (l : List ModelRollout)
      → Stands r (active_backwards C day l)
      → Stands r l × ((reached C day (end_day C r) ≡ true) ⊎ (reached C day (start_day C r) ≡ true))
  unfolding active_backwards
  active_backwards-Stands day r [] m = absurd m
  active_backwards-Stands day r (x ∷ l) m =
      let next = active_backwards-Stands day r l in
      let same : r ≡ x
          → (reached C day (end_day C r) ≡ reached C day (end_day C x))
            × (reached C day (start_day C r) ≡ reached C day (start_day C x)) =
        λ e. (ap (λ y. reached C day (end_day C y)) e, ap (λ y. reached C day (start_day C y)) e) in
      ground arith

  -- Where no rollout ends before it starts, each rollout that RetrieveActiveRollouts returns is
  -- one of the given ones and has started by the day. `<` of days is an order, and the sort
  -- keeps the elements of the list.
  pub retrieve_active_rollouts-started :
      BeforeIsOrder C
      → SortKeeps C
      → (rollouts : List ModelRollout) (day : C.CivilDay) (r : ModelRollout)
      → ((x : ModelRollout) → Stands x rollouts → InOrder x)
      → Stands r (retrieve_active_rollouts C rollouts day)
      → Stands r rollouts × (reached C day (start_day C r) ≡ true)
  unfolding retrieve_active_rollouts active_of_sorted reached
  retrieve_active_rollouts-started order keeps rollouts day r in_order m =
      let (stands, started) = of_sorted (C.sort (compare_model_rollouts C) rollouts) m in
      let given = (keeps.sort_keeps (compare_model_rollouts C) r rollouts).0 stands in
      (given, elim started [ inr h ↦ h | inl h ↦ ended h (in_order r given) ])
    where
      of_sorted :
          (l : List ModelRollout)
          → Stands r (active_of_sorted C day l)
          → Stands r l
            × ((reached C day (end_day C r) ≡ true) ⊎ (reached C day (start_day C r) ≡ true))
      of_sorted [] m = absurd m
      of_sorted (x ∷ l) m = elim (Bool-cases (C.before day (start_day C x))) [
        | inl h ↦ absurd (rw h at m)
        | inr h ↦
            (let m' : Stands r (reverse C (active_backwards C day (reverse C (x ∷ l)))) =
                rw h at m in
              let (s, t) =
                active_backwards-Stands day r (reverse C (x ∷ l)) (Stands-reverse r _ m') in
              (Stands-reverse r (x ∷ l) s, t))
      ]

      ended :
          reached C day (end_day C r) ≡ true
          → C.before (end_day C r) (start_day C r) ≡ false
          → reached C day (start_day C r) ≡ true
      ended h o = let t = order.before_trans day (end_day C r) (start_day C r) in ground arith

module _ (P : Platform) (C : Calendar P.doubles) where
  -- The event falls below the percentage of the release.
  unfoldable pub covers : String → ModelReleasePercentile P.doubles → Bool
  covers event_id percentage =
      P.doubles.lt (reduced_event_id P C percentage.model_release_resource_key event_id)
        percentage.end_percentile

  -- The loop of GetModelRelease selects the release of the last percentage that covers the
  -- event, and keeps the one it starts with where none does.
  pub select_release-last :
      (event_id : String) (percentages : List (ModelReleasePercentile P.doubles))
      (selected : String)
      → (All (λ p. covers event_id p ≡ false) percentages
          × (select_release P C event_id percentages selected ≡ selected))
        ⊎ ((before : List (ModelReleasePercentile P.doubles)) × (p : ModelReleasePercentile
              P.doubles)
            × (after : List (ModelReleasePercentile P.doubles)) × (percentages
                ≡ before ++ (p ∷ after))
            × (covers event_id p ≡ true)
            × All (λ q. covers event_id q ≡ false) after
            × (select_release P C event_id percentages selected ≡ p.model_release_resource_key))
  unfolding select_release covers
  select_release-last event_id [] selected = inl (tt, refl)
  select_release-last event_id (p ∷ ps) selected = elim (Bool-cases (covers event_id p)) [
    | inl h ↦ elim (select_release-last event_id ps p.model_release_resource_key) [
      | inl none_after ↦ inr ([], p, ps, refl, h, none_after.0, rw (h, none_after.1))
      | inr found ↦
          (let (before, q, after, e, c, n, s) = found in
            inr (p ∷ before, q, after, ap (λ l. p ∷ l) e, c, n, rw (h, s)))
    ]
    | inr h ↦ elim (select_release-last event_id ps selected) [
      | inl none_after ↦ inl ((h, none_after.0), rw (h, none_after.1))
      | inr found ↦
          (let (before, q, after, e, c, n, s) = found in
            inr (p ∷ before, q, after, ap (λ l. p ∷ l) e, c, n, rw (h, s)))
    ]
  ]
