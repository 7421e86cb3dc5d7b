-- ===== src/Selector/LruCache/Keys.antt =====
-- Lists of keys, and what they are without one.
use virtual_people_core_serv.Prelude.{
  suc, List, [], ◌∷◌, Bool, true, ◌≡◌, ◌≢◌, subst, ◌↔◌, length, arith,
}
use virtual_people_core_serv.Selector.LruCache.{remove, stands_in}
use virtual_people_core_serv.Selector.LruCache.Invariant.{In, Distinct, IsEquality}

module _ {K : Type 0} (same : K → K → Bool) (law : IsEquality same) where
  pub In-remove : (x k : K) (l : List K) → Distinct l → In x (remove same k l) ↔ ((x ≢ k) × In x l)
  unfolding remove
  In-remove x k [] d = ground arith
  In-remove x k (k' ∷ l) d =
      let next = In-remove x k l d.1 in
      let head : x ≡ k' → ¬ In x l = λ e m. d.0 (subst (λ y. In y l) e m) in
      ground (arith, law k k')

  pub remove-Distinct : (k : K) (l : List K) → Distinct l → Distinct (remove same k l)
  unfolding remove
  remove-Distinct k [] d = d
  remove-Distinct k (k' ∷ l) d =
      let next = remove-Distinct k l d.1 in
      let mem = In-remove k' k l d.1 in ground (arith, law k k')

  pub length-remove : (k : K) (l : List K) → In k l → suc (length (remove same k l)) ≡ length l
  unfolding remove
  length-remove k [] m = absurd m
  length-remove k (k' ∷ l) m = let next = length-remove k l in ground (arith, law k k')

  pub stands_in_iff : (k : K) (l : List K) → (stands_in same k l ≡ true) ↔ In k l
  unfolding stands_in
  stands_in_iff k [] = ground arith
  stands_in_iff k (k' ∷ l) = let next = stands_in_iff k l in ground (arith, law k k')
