-- ===== src/IdPool/Liveness.antt =====
-- That the ids come back: no history leaves the pool unable to serve.
use vaccel_google_test.Common.{
  ℕ, zero, suc, ◌+◌, ◌^◌, ◌≡◌, ◌≤◌, ◌<◌, refl, ap, ◌∙◌, subst, Bool-cases, inl, inr, true, false,
  List, [], ◌∷◌, arith, has, remove, length, Distinct, Distinct-right, remove_absent, ◌==◌,
}
use vaccel_google_test.Common.Memory.{ok}
use vaccel_google_test.IdPool.{IdPool, id_pool_new}
use vaccel_google_test.IdPool.Invariant.{
  free, Serves, id_pool_get-Got, id_pool_new-fresh, id_pool_new-Serves,
}
use vaccel_google_test.IdPool.Release.{id_pool_release-Serves}
use vaccel_google_test.IdPool.History.{Reach, Reach-max, history-Serves}
use vaccel_google_test.IdPool.Refinement.{Request, get, release, call, call_all}

abbrev pub gets : ℕ → List Request
gets zero = []
gets (suc k) = get ∷ gets k

abbrev pub releases : List ℕ → List Request
releases [] = []
releases (id ∷ ids) = release id ∷ releases ids

releases-Serves :
    (held : List ℕ) (pool : IdPool)
    → Serves pool held
    → (pool' : IdPool) × (call_all (releases held) pool ≡ ok ([], pool'))
      × Serves pool' []
      × (pool'.max ≡ pool.max)
unfolding call_all call
releases-Serves [] pool s = (pool, refl, s, refl)
releases-Serves (id ∷ held) pool s =
    let d : Distinct (id ∷ held) = Distinct-right (free pool) (id ∷ held) s.distinct in
    let (pool₁, runs, s₁, _, same) = id_pool_release-Serves id pool (id ∷ held) s (ground arith) in
    let left : remove id (id ∷ held) ≡ held = ground (arith, remove_absent id held d.0) in
    let (pool₂, more, s₂, kept) = releases-Serves held pool₁ (subst (Serves pool₁) left s₁) in
    (pool₂, rw (runs, more) refl, s₂, kept ∙ same)

gets-Serves :
    (k : ℕ) (pool : IdPool) (held : List ℕ)
    → Serves pool held
    → length held + k ≤ pool.max
    → (ids : List ℕ) × (pool' : IdPool) × (call_all (gets k) pool ≡ ok (ids, pool'))
      × (length ids ≡ k)
      × Distinct ids
      × ((a : ℕ) → has a ids ≡ true → (has a held ≡ false) × (1 ≤ a) × (a ≤ pool.max))
unfolding call_all call
gets-Serves zero pool held s room = ([], pool, refl, refl, tt, λ a h. ground (arith, h))
gets-Serves (suc k) pool held s room =
    let (id, pool₁, got) = id_pool_get-Got pool held s (omega arith) in
    let (ids, pool₂, more, count, d, new) =
      gets-Serves k pool₁ (id ∷ held) got.serves (omega (arith, got.keeps)) in
    let absent : has id ids ≡ false = elim (Bool-cases (has id ids)) [
      | inr free_still ↦ free_still
      | inl again ↦ ground (arith, (new id again).0)
    ] in
    (
      id ∷ ids,
      pool₂,
      rw (got.runs, more) refl,
      ap suc count,
      (absent, d),
      λ a h. elim (Bool-cases (id == a)) [
        | inl hit ↦ ground (arith, hit, got.fresh, got.bounds)
        | inr miss ↦ ground (arith, miss, h, new a, got.keeps)
      ],
    )

-- Whatever history of calls a pool of 1 to 2^31 - 1 ids has behind it, in which ids were taken
-- while one was left and only held ids were returned: returning the ids that are held succeeds,
-- and then as many calls in a row as the pool has ids are each given an id of the pool, no two of
-- them the same.
pub id_pool_get-liveness :
    (n : ℕ) (pool q : IdPool) (held : List ℕ)
    → 1 ≤ n
    → n < 2 ^ 31
    → Reach (id_pool_new n true pool).1 [] q held
    → (p q' : IdPool) × (ids : List ℕ) × (call_all (releases held) q ≡ ok ([], p))
      × (call_all (gets n) p ≡ ok (ids, q'))
      × (length ids ≡ n)
      × Distinct ids
      × ((a : ℕ) → has a ids ≡ true → (1 ≤ a) × (a ≤ n))
id_pool_get-liveness n pool q held low high r =
    let (p, back, s, same) = releases-Serves held q (history-Serves n pool q held low high r) in
    let full : p.max ≡ n =
      same
      ∙ Reach-max (id_pool_new-Serves n pool low high).1 r
      ∙ ap (λ r. r.1.max) (id_pool_new-fresh n pool low) in
    let (ids, q', given, count, d, new) = gets-Serves n p [] s (omega arith) in
    (p, q', ids, back, given, count, d, λ a h. ground (arith, new a h, full))
