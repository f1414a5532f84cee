-- ===== src/IdPool/History.antt =====
-- Histories of a pool: calls one after the other, never a get while every id is held, and never a
-- release of an id that is not held.
use vaccel_google_test.Common.{
  ℕ, ◌^◌, ◌≤◌, ◌<◌, ◌≡◌, refl, true, List, [], ◌∷◌, arith, has, remove, length, length-remove-lt,
  subst, sym, ap, ◌∙◌,
}
use vaccel_google_test.Common.Memory.{ok}
use vaccel_google_test.IdPool.{IdPool, id_pool_new, id_pool_get, id_pool_release}
use vaccel_google_test.IdPool.Invariant.{
  Serves, id_pool_new-Serves, id_pool_get-Got, free-taken, id_pool_get-taken, taken,
}
use vaccel_google_test.IdPool.Release.{id_pool_release-Serves}

pub data Step (pool : IdPool) (held : List ℕ) : IdPool → List ℕ → Type 0 where
  get :
      {pool' : IdPool} (id : ℕ)
      → length held < pool.max
      → id_pool_get pool ≡ ok (id, pool')
      → Step pool held pool' (id ∷ held)
  release :
      {pool' : IdPool} (id : ℕ)
      → has id held ≡ true
      → id_pool_release id pool ≡ ok pool'
      → Step pool held pool' (remove id held)

pub data Reach (pool : IdPool) (held : List ℕ) : IdPool → List ℕ → Type 0 where
  here : Reach pool held pool held
  next :
      {p q : IdPool} {hs ks : List ℕ} → Reach pool held p hs → Step p hs q ks → Reach pool held q ks

ok-injective {ℓ} : {A : Type ℓ} {a b : A} → ok a ≡ ok b → a ≡ b
ok-injective p = cc

Step-Serves : {p q : IdPool} {hs ks : List ℕ} → Step p hs q ks → Serves p hs → Serves q ks
Step-Serves {p} {hs} (get {pool' = q} id room runs) s =
    let (id', q', got) = id_pool_get-Got p hs s room in
    let same : (id', q') ≡ (id, q) = ok-injective (sym got.runs ∙ runs) in
    subst (λ (x : ℕ × IdPool). Serves x.1 (x.0 ∷ hs)) same got.serves
Step-Serves {p} {hs} (release {pool' = q} id holds runs) s =
    let (q', runs', s', _, _) = id_pool_release-Serves id p hs s holds in
    subst (λ x. Serves x (remove id hs)) (ok-injective (sym runs' ∙ runs)) s'

Reach-Serves :
    {p : IdPool} {hs : List ℕ} {q : IdPool} {ks : List ℕ}
    → Serves p hs
    → Reach p hs q ks
    → Serves q ks
Reach-Serves s here = s
Reach-Serves s (next r st) = Step-Serves st (Reach-Serves s r)

Step-max : {p q : IdPool} {hs ks : List ℕ} → Step p hs q ks → Serves p hs → q.max ≡ p.max
Step-max {p} {hs} (get id room runs) s =
    let (id', q', got) = id_pool_get-Got p hs s room in
    ap (λ (x : ℕ × IdPool). x.1.max) (ok-injective (sym runs ∙ got.runs)) ∙ got.keeps
Step-max {p} {hs} (release id holds runs) s =
    let (q', runs', _, _, same) = id_pool_release-Serves id p hs s holds in
    ap (λ x. x.max) (ok-injective (sym runs ∙ runs')) ∙ same

pub Reach-max :
    {p : IdPool} {hs : List ℕ} {q : IdPool} {ks : List ℕ}
    → Serves p hs
    → Reach p hs q ks
    → q.max ≡ p.max
Reach-max s here = refl
Reach-max s (next r st) = Step-max st (Reach-Serves s r) ∙ Reach-max s r

-- Whatever the sequence of gets and releases after `id_pool_new` of 1 to 2^31 - 1 ids, with no
-- get while every id is held and no release of an id that is not held, no id is held twice, and
-- free and held ids are together distinct and lie in 1..n.
pub history-Serves :
    (n : ℕ) (pool q : IdPool) (held : List ℕ)
    → 1 ≤ n
    → n < 2 ^ 31
    → Reach (id_pool_new n true pool).1 [] q held
    → Serves q held
history-Serves n pool q held low high r = Reach-Serves (id_pool_new-Serves n pool low high).1 r

cons-head : {a b : ℕ} {xs ys : List ℕ} → a ∷ xs ≡ b ∷ ys → a ≡ b
cons-head p = cc

-- The id that was released last is the next one to be given.
pub id_pool_get-release :
    (id : ℕ) (pool : IdPool) (held : List ℕ)
    → Serves pool held
    → has id held ≡ true
    → (p q : IdPool) × (id_pool_release id pool ≡ ok p) × (id_pool_get p ≡ ok (id, q))
id_pool_get-release id pool held s holds =
    let (p, runs, s', front, same) = id_pool_release-Serves id pool held s holds in
    let room = length-remove-lt id held holds in
    let taking =
      id_pool_get-taken p s'.size s'.int (omega (arith, s'.counted, s.within, room, same)) in
    let head = sym (free-taken p (omega (arith, s'.counted, s.within, room, same))) ∙ front in
    (p, taken p, runs, taking ∙ ap (λ x. ok (x, taken p)) (cons-head head))
