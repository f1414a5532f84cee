-- ===== src/Sessions/Occurrences.antt =====
-- How often a resource is registered: with one session, and with all sessions of a list.
use vaccel_google_test.Common.{
  ℕ, ◌+◌, ◌≤◌, ◌≡◌, refl, ◌≢◌, inl, inr, Bool-cases, true, false, Option, none, some, List, [], ◌∷◌,
  ◌++◌, arith, ◌==◌, if◌then◌else◌, has, Distinct,
}
use vaccel_google_test.Common.Memory.{Ptr}
use vaccel_google_test.Sessions.State.{SessionResources, Sessions, remove_first}

abbrev pub occurrences : Ptr → List Ptr → ℕ
occurrences a [] = 0
occurrences a (x ∷ xs) = (if x == a then 1 else 0) + occurrences a xs

pub occurrences-snoc :
    (a x : Ptr) (xs : List Ptr)
    → occurrences a (xs ++ x ∷ []) ≡ occurrences a xs + (if x == a then 1 else 0)
occurrences-snoc a x [] = ground arith
occurrences-snoc a x (y ∷ xs) = ground (arith, occurrences-snoc a x xs)

pub occurrences-remove_first :
    (a x : Ptr) (xs : List Ptr)
    → has x xs ≡ true
    → occurrences a (remove_first x xs) + (if x == a then 1 else 0) ≡ occurrences a xs
occurrences-remove_first a x [] i = cc
occurrences-remove_first a x (y ∷ xs) i = ground (arith, occurrences-remove_first a x xs)

pub occurrences_pos : (a : Ptr) (xs : List Ptr) → has a xs ≡ true → 1 ≤ occurrences a xs
occurrences_pos a [] i = cc
occurrences_pos a (x ∷ xs) i = ground (arith, occurrences_pos a xs)

pub remove_first-snoc :
    (a : Ptr) (xs : List Ptr) → has a xs ≡ false → remove_first a (xs ++ a ∷ []) ≡ xs
remove_first-snoc a [] h = ground arith
remove_first-snoc a (x ∷ xs) h = ground (arith, remove_first-snoc a xs)

abbrev pub registered_as : (type : ℕ) → Ptr → Option SessionResources → ℕ
registered_as type res none = 0
registered_as type res (some r) = occurrences res (r.registered type)

-- The registrations of `res` with the session at `sess`.
abbrev pub registrations : Sessions → (res sess : Ptr) → ℕ
registrations s res sess = registered_as (s.resources.res res).type res (s.sess sess).resources

-- With all sessions of a list.
abbrev pub total : Sessions → (res : Ptr) → List Ptr → ℕ
total s res [] = 0
total s res (sess ∷ rest) = registrations s res sess + total s res rest

module _ (s s' : Sessions) (res : Ptr) where
  -- What changes nothing at the sessions of a list changes no sum over it.
  pub total-frame :
      (ss : List Ptr)
      → ((q : Ptr) → has q ss ≡ true → registrations s' res q ≡ registrations s res q)
      → total s' res ss ≡ total s res ss
  total-frame [] h = refl
  total-frame (q ∷ ss) h = ground (arith, h q, total-frame ss (λ p i. h p (ground arith)))

  -- One session gains `a` and loses `b`.
  pub total-change :
      (sess : Ptr) (a b : ℕ) (ss : List Ptr)
      → Distinct ss
      → has sess ss ≡ true
      → registrations s' res sess + b ≡ registrations s res sess + a
      → ((q : Ptr) → q ≢ sess → registrations s' res q ≡ registrations s res q)
      → total s' res ss + b ≡ total s res ss + a
  total-change sess a b [] d i e h = cc
  total-change sess a b (q ∷ ss) d i e h = elim (Bool-cases (q == sess)) [
    | inl hit ↦
        ground
          (arith, hit, d, total-frame ss (λ p j. h p (λ same. ground (arith, hit, same, j, d))))
    | inr miss ↦ ground (arith, miss, h q, total-change sess a b ss d.1 (ground arith) e h)
  ]

pub total_pos :
    (s : Sessions) (res sess : Ptr) (ss : List Ptr)
    → has sess ss ≡ true
    → 1 ≤ registrations s res sess
    → 1 ≤ total s res ss
total_pos s res sess [] i one = cc
total_pos s res sess (q ∷ ss) i one = ground (arith, total_pos s res sess ss)
