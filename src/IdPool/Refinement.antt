-- ===== src/IdPool/Refinement.antt =====
-- The pool as a stack of free ids: what its callers rely on, and that the code provides it.
use vaccel_google_test.Common.{
  ℕ, zero, suc, ◌+◌, ◌^◌, ◌≡◌, ◌≤◌, ◌<◌, refl, ap, sym, Option-cases, ◌∙◌, subst, Bool-cases, inl,
  inr, true, Option, none, some, List, [], ◌∷◌, ◌++◌, arith, has, remove, length, if◌then◌else◌,
  replicate, ltb,
}
use native.Mathlib.Numerals.{unary_clauses}
use vaccel_google_test.Common.Memory.{Outcome, ok, ◌>>=◌}
use vaccel_google_test.IdPool.{IdPool, id_pool_new, id_pool_get, id_pool_release}
use vaccel_google_test.IdPool.Free.{free_ids}
use vaccel_google_test.IdPool.Invariant.{
  free, Serves, id_pool_new-fresh, id_pool_new-Serves, id_pool_get-Got, id_pool_get-taken, taken,
  free-taken,
}
use vaccel_google_test.IdPool.Release.{id_pool_release-Serves}

pub data Request : Type 0 where
  get : Request
  release : (id : ℕ) → Request

-- The abstract pool: the free ids, the next one first, and the ids that were given out.
pub record Stack : Type 0 where
  pub free_stack : List ℕ
  pub held : List ℕ

-- The ids `i + 1`, ..., `i + n`.
abbrev pub ids_above : (i n : ℕ) → List ℕ
ids_above i zero = []
ids_above i (suc n) = (i + 1) ∷ ids_above (i + 1) n

abbrev pub new_stack : (n : ℕ) → Stack
new_stack n = record { free_stack = ids_above 0 n; held = [] }

-- One request of the abstract pool, with the id that it gives. There is no answer when no id is
-- left, and when an id is returned that was not given out.
unfoldable pub serve : Request → Stack → Option (List ℕ × Stack)
serve get s = elim s.free_stack [
  | [] ↦ none
  | id ∷ rest ↦ some (id ∷ [], record { free_stack = rest; held = id ∷ s.held })
]
serve (release id) s =
    if has id s.held
    then some ([], record { free_stack = id ∷ s.free_stack; held = remove id s.held })
    else none

-- The ids that a sequence of requests gives, in order.
unfoldable pub serve_all : List Request → Stack → Option (List ℕ × Stack)
unfolding serve
serve_all [] s = some ([], s)
serve_all (r ∷ rs) s = elim (serve r s) [
  | none ↦ none
  | some (ids, s') ↦ elim (serve_all rs s') [
    | none ↦ none
    | some (more, s'') ↦ some (ids ++ more, s'')
  ]
]

-- The same requests to the code.
unfoldable pub call : Request → IdPool → Outcome (List ℕ × IdPool)
call get pool = id_pool_get pool >>= λ (id, pool'). ok (id ∷ [], pool')
call (release id) pool = id_pool_release id pool >>= λ pool'. ok ([], pool')

unfoldable pub call_all : List Request → IdPool → Outcome (List ℕ × IdPool)
unfolding call
call_all [] pool = ok ([], pool)
call_all (r ∷ rs) pool =
    call r pool >>= λ (ids, pool'). call_all rs pool' >>= λ (more, pool''). ok (ids ++ more, pool'')

-- The code's pool stands for an abstract one.
pub record Represents (pool : IdPool) (s : Stack) : Type 0 where
  pub serves : Serves pool s.held
  pub stack : free pool ≡ s.free_stack

free_ids-past : (i k : ℕ) (xs : List ℕ) → length xs ≤ k → free_ids i k xs ≡ []
free_ids-past i k [] h = refl
free_ids-past i zero (x ∷ xs) h = elim h [ ]
free_ids-past i (suc k) (x ∷ xs) h = free_ids-past (suc i) k xs (omega arith)

-- An id is on the stack only while fewer are held than there are.
room_of :
    (id : ℕ) (rest : List ℕ) (pool : IdPool) (held : List ℕ)
    → Serves pool held
    → free pool ≡ id ∷ rest
    → length held < pool.max
room_of id rest pool held s e = elim (Bool-cases (ltb (length held) pool.max)) [
  | inl room ↦ ground arith
  | inr full ↦
      ground (arith, e, free_ids-past 0 pool.next pool.ids (ground (arith, s.size, s.counted)))
]

heads :
    {id id' slot : ℕ} {p q : IdPool} {o : Outcome (ℕ × IdPool)} {xs ys : List ℕ}
    → o ≡ ok (slot, q)
    → o ≡ ok (id', p)
    → id ∷ xs ≡ slot ∷ ys
    → id' ≡ id
heads a b c = cc

tails : {a b : ℕ} {xs ys : List ℕ} → a ∷ xs ≡ b ∷ ys → xs ≡ ys
tails e = cc

get-Represents :
    (id : ℕ) (rest : List ℕ) (pool : IdPool) (held : List ℕ)
    → Serves pool held
    → free pool ≡ id ∷ rest
    → (pool' : IdPool) × (id_pool_get pool ≡ ok (id, pool'))
      × Represents pool' (record { free_stack = rest; held = id ∷ held })
get-Represents id rest pool held s e =
    let room = room_of id rest pool held s e in
    let runs = id_pool_get-taken pool s.size s.int (omega (arith, s.counted)) in
    let split = sym e ∙ free-taken pool (omega (arith, s.size, s.counted)) in
    let (id', pool', got) = id_pool_get-Got pool held s room in
    let (same_id, same) : (id' ≡ id) × (pool' ≡ taken pool) = (heads runs got.runs split, cc) in
    (
      pool',
      got.runs ∙ ap (λ i. ok (i, pool')) same_id,
      record {
        serves = subst (λ i. Serves pool' (i ∷ held)) same_id got.serves;
        stack = ap free same ∙ sym (tails split);
      },
    )

answer {ℓ κ} : {A : Type ℓ} {B : Type κ} {x y : A × B} → some x ≡ some y → (y.0 ≡ x.0) × (y.1 ≡ x.1)
answer e = (cc, cc)

serve-get :
    (l ids : List ℕ) (pool : IdPool) (s s' : Stack)
    → Represents pool s
    → s.free_stack ≡ l
    → serve get s ≡ some (ids, s')
    → (pool' : IdPool) × (call get pool ≡ ok (ids, pool')) × Represents pool' s'
unfolding serve call
serve-get [] ids pool s s' v left e = ground (arith, left, e)
serve-get (id ∷ rest) ids pool s s' v left e =
    let S : Option (List ℕ × Stack) =
      some (id ∷ [], record { free_stack = rest; held = id ∷ s.held }) in
    let given : S ≡ some (ids, s') = rw (sym e) (rw left refl) in
    let (pool', runs, v') = get-Represents id rest pool s.held v.serves (v.stack ∙ left) in
    (pool', rw ((answer given).0, runs) refl, rw (answer given).1 v')

serve_one-refines :
    (r : Request) (ids : List ℕ) (pool : IdPool) (s s' : Stack)
    → Represents pool s
    → serve r s ≡ some (ids, s')
    → (pool' : IdPool) × (call r pool ≡ ok (ids, pool')) × Represents pool' s'
unfolding serve call
serve_one-refines get ids pool s s' v e = serve-get s.free_stack ids pool s s' v refl e
serve_one-refines (release id) ids pool s s' v e = elim (Bool-cases (has id s.held)) [
  | inr missing ↦ ground (arith, e, missing)
  | inl holds ↦
      let S : Option (List ℕ × Stack) =
        some ([], record { free_stack = id ∷ s.free_stack; held = remove id s.held }) in
      let given : S ≡ some (ids, s') = rw (sym e) (rw holds refl) in
      let (pool', runs, serves, front, _) = id_pool_release-Serves id pool s.held v.serves holds in
      (
        pool',
        rw ((answer given).0, runs) refl,
        rw (answer given).1 (record { serves = serves; stack = front ∙ ap (λ l. id ∷ l) v.stack }),
      )
]

call_all-refines :
    (rs : List Request) (ids : List ℕ) (pool : IdPool) (s s' : Stack)
    → Represents pool s
    → serve_all rs s ≡ some (ids, s')
    → (pool' : IdPool) × (call_all rs pool ≡ ok (ids, pool')) × Represents pool' s'
unfolding serve_all call_all
call_all-refines [] ids pool s s' v e = (pool, rw (answer e).0 refl, rw (answer e).1 v)
call_all-refines (r ∷ rs) ids pool s s' v e = elim (Option-cases (serve r s)) [
  | inl stuck ↦ ground (arith, e, stuck)
  | inr ((now, s₁), first) ↦
      let (pool₁, runs, v₁) = serve_one-refines r now pool s s₁ v first in
      elim (Option-cases (serve_all rs s₁)) [
        | inl stuck ↦ ground (arith, e, first, stuck)
        | inr ((more, s₂), later) ↦
            let (pool₂, runs', v₂) = call_all-refines rs more pool₁ s₁ s₂ v₁ later in
            let S : Option (List ℕ × Stack) = some (now ++ more, s₂) in
            let given : S ≡ some (ids, s') = rw (sym e) (rw (serve_all, first, later) refl) in
            (pool₂, rw ((answer given).0, runs, runs') refl, rw (answer given).1 v₂)
      ]
]

free_ids-new : (i n : ℕ) → free_ids i 0 (replicate n 0) ≡ ids_above i n
free_ids-new i zero = refl
free_ids-new i (suc n) = simp unary_clauses (ap (λ l. suc i ∷ l) (free_ids-new (suc i) n))

-- The pool refines a stack of the ids 1, ..., n, for 1 to 2^31 - 1 ids. For every sequence of
-- requests that takes an id only while one is left and returns only ids that are held, a pool
-- that `id_pool_new` makes runs through them, gives exactly the ids that the stack gives, in the
-- same order, and stands for the stack that the requests leave.
pub id_pool-refines :
    (n : ℕ) (pool : IdPool) (rs : List Request) (ids : List ℕ) (s' : Stack)
    → 1 ≤ n
    → n < 2 ^ 31
    → serve_all rs (new_stack n) ≡ some (ids, s')
    → (pool' : IdPool) × (call_all rs (id_pool_new n true pool).1 ≡ ok (ids, pool'))
      × Represents pool' s'
id_pool-refines n pool rs ids s' low high =
    call_all-refines rs ids (id_pool_new n true pool).1 (new_stack n) s' (record {
      serves = (id_pool_new-Serves n pool low high).1;
      stack = ap (λ r. free r.1) (id_pool_new-fresh n pool low) ∙ free_ids-new 0 n;
    })
