-- ===== src/Sessions/Emptied.antt =====
-- The loops of `cleanup_session_resources` in src/session.c: they empty the lists of a session.
use vaccel_google_test.Common.{
  ℕ, zero, suc, ◌+◌, ◌≤◌, ◌<◌, ◌≡◌, refl, ap, sym, ◌∙◌, ◌≢◌, ◌⊎◌, inl, inr, Bool-cases, true, false,
  some, List, [], ◌∷◌, arith, ◌==◌, leb, has, Distinct,
}
use vaccel_google_test.Common.Code.{vaccel_ok}
use vaccel_google_test.Common.Memory.{Ptr, null, ok}
use vaccel_google_test.Resources.{res_max, resource_refcount_dec}
use vaccel_google_test.Sessions.State.{
  SessionResources, Sessions, with_registered, remove_first, detach, vaccel_sess_unregister,
  unregister_list, unregister_from,
}
use vaccel_google_test.Sessions.Counted.{IsCounted, detach-IsCounted}

-- What unregistering resources leaves alone.
pub record Kept (sess : Ptr) (s s' : Sessions) : Type 0 where
  pub ids : s'.ids ≡ s.ids
  pub running : s'.running ≡ s.running
  pub initialized : s'.initialized ≡ s.initialized
  pub id : (s'.sess sess).session_id ≡ (s.sess sess).session_id
  pub others : (q : Ptr) → q ≢ sess → s'.sess q ≡ s.sess q
  pub types : (x : Ptr) → (s'.resources.res x).type ≡ (s.resources.res x).type

-- What unregistering the resources of the list of type `t` leaves.
record Emptied (sess : Ptr) (ss : List Ptr) (t : ℕ) (r : SessionResources) (s s' : Sessions)
    : Type 0 where
  pub after : SessionResources
  pub has_after : (s'.sess sess).resources ≡ some after
  pub empty : after.registered t ≡ []
  pub lists : (u : ℕ) → u ≢ t → after.registered u ≡ r.registered u
  pub counted : IsCounted ss s'
  pub kept : Kept sess s s'

-- The resources of the list are there, and have the list's type.
abbrev pub IsTyped : Sessions → ℕ → List Ptr → Type 0
IsTyped s t l = (x : Ptr) → has x l ≡ true → (x ≢ null) × ((s.resources.res x).type ≡ t)

module _ (sess : Ptr) (ss : List Ptr) (once : Distinct ss) (member : has sess ss ≡ true)
    (ne : sess ≢ null) where
  unregister_one :
      (s : Sessions) (r : SessionResources) (res : Ptr) (t : ℕ)
      → (s.sess sess).resources ≡ some r
      → res ≢ null
      → (s.resources.res res).type ≡ t
      → t < res_max
      → has res (r.registered t) ≡ true
      → vaccel_sess_unregister sess res s ≡ ok (vaccel_ok, detach sess res r s)
  unfolding vaccel_sess_unregister
  unregister_one s r res t has_r real typed low there =
      let there' : has res (r.registered (s.resources.res res).type) ≡ true = rw typed there in
      let checks : (sess == null) ≡ false = ground arith in
      let checks' : (res == null) ≡ false = ground arith in
      let checks'' : leb res_max (s.resources.res res).type ≡ false = ground arith in
      rw (checks, checks', checks'', has_r, there')

  detach-Kept :
      (s : Sessions) (r : SessionResources) (res : Ptr) → Kept sess s (detach sess res r s)
  unfolding detach resource_refcount_dec
  detach-Kept s r res = record {
    ids = refl;
    running = refl;
    initialized = refl;
    id = ground arith;
    others = λ q n. ground arith;
    types = λ x. ground arith;
  }

  detach_resources :
      (s : Sessions) (r : SessionResources) (res : Ptr)
      → ((detach sess res r s).sess sess).resources
        ≡ some (
            with_registered r
              (s.resources.res res).type
              (remove_first res (r.registered (s.resources.res res).type)))
  unfolding detach
  detach_resources s r res = ground arith

  rest_lem :
      (r : SessionResources) (res : Ptr) (rest : List Ptr) (t type : ℕ)
      → type ≡ t
      → r.registered t ≡ res ∷ rest
      → (with_registered r type (remove_first res (r.registered type))).registered t ≡ rest
  rest_lem r res rest t type same e = rw (same, e) (ground arith)

  lists_lem :
      (r : SessionResources) (l : List Ptr) (type t u : ℕ)
      → type ≡ t
      → u ≢ t
      → (with_registered r type l).registered u ≡ r.registered u
  lists_lem r l type t u same n = ground arith

  Kept-trans : {a b c : Sessions} → Kept sess a b → Kept sess b c → Kept sess a c
  Kept-trans k l = record {
    ids = l.ids ∙ k.ids;
    running = l.running ∙ k.running;
    initialized = l.initialized ∙ k.initialized;
    id = l.id ∙ k.id;
    others = λ q n. l.others q n ∙ k.others q n;
    types = λ x. l.types x ∙ k.types x;
  }

  unregister_list_lem :
      (t : ℕ) (l : List Ptr) (s : Sessions) (r : SessionResources)
      → t < res_max
      → (s.sess sess).resources ≡ some r
      → r.registered t ≡ l
      → IsTyped s t l
      → IsCounted ss s
      → (s' : Sessions) × (unregister_list sess l s ≡ ok s') × Emptied sess ss t r s s'
  unfolding unregister_list
  unregister_list_lem t [] s r low has_r e typed counted = (
    s,
    refl,
    record {
      after = r;
      has_after = has_r;
      empty = e;
      lists = λ u n. refl;
      counted = counted;
      kept = record {
        ids = refl;
        running = refl;
        initialized = refl;
        id = refl;
        others = λ q n. refl;
        types = λ x. refl;
      };
    },
  )
  unregister_list_lem t (res ∷ rest) s r low has_r e typed counted =
      let (real, type) = typed res (ground arith) in
      let there : has res (r.registered t) ≡ true = rw e (ground arith) in
      let run = unregister_one s r res t has_r real type low there in
      let r1 =
        with_registered r (s.resources.res res).type
          (remove_first res (r.registered (s.resources.res res).type)) in
      let s1 = detach sess res r s in
      let kept1 = detach-Kept s r res in
      let counted1 =
        detach-IsCounted sess res r s has_r ss once member real (rw type there) counted in
      let shorter : r1.registered t ≡ rest =
        rest_lem r res rest t (s.resources.res res).type type e in
      let typed1 : IsTyped s1 t rest =
        λ x i. ((typed x (ground arith)).0, kept1.types x ∙ (typed x (ground arith)).1) in
      let (s', runs, done) =
        unregister_list_lem t rest s1 r1 low (detach_resources s r res) shorter (λ x i. typed1 x i)
          counted1 in
      (
        s',
        rw (run, runs),
        record {
          after = done.after;
          has_after = done.has_after;
          empty = done.empty;
          lists = λ u n.
              done.lists u n
              ∙ lists_lem r (remove_first res (r.registered (s.resources.res res).type))
                  (s.resources.res res).type t u type n;
          counted = done.counted;
          kept = Kept-trans kept1 done.kept;
        },
      )

  Emptied-IsTyped :
      (u t : ℕ) (x : Ptr) (r : SessionResources) (s s1 : Sessions) (one : Emptied sess ss u r s s1)
      → IsTyped s t (r.registered t)
      → has x (one.after.registered t) ≡ true
      → (x ≢ null) × ((s1.resources.res x).type ≡ t)
  Emptied-IsTyped u t x r s s1 one typed i = elim (Bool-cases (t == u)) [
    | inl same ↦
        let e : t ≡ u = ground arith in
        let none_left : one.after.registered t ≡ [] = rw e one.empty in ground (arith, none_left, i)
    | inr other ↦
        let n : t ≢ u = ground arith in
        let there : has x (r.registered t) ≡ true = sym (ap (has x) (one.lists t n)) ∙ i in
        ((typed x there).0, one.kept.types x ∙ (typed x there).1)
  ]

  Emptied-before :
      (u t : ℕ) (r : SessionResources) (s s1 : Sessions) (one : Emptied sess ss u r s s1)
      → ((t < u) ⊎ (res_max ≤ t) → r.registered t ≡ [])
      → (t < u + 1) ⊎ (res_max ≤ t)
      → one.after.registered t ≡ []
  Emptied-before u t r s s1 one before h = elim (Bool-cases (t == u)) [
    | inl same ↦ let e : t ≡ u = ground arith in rw e one.empty
    | inr other ↦
        let n : t ≢ u = ground arith in
        let h' : (t < u) ⊎ (res_max ≤ t) = ground (arith, h) in one.lists t n ∙ before h'
  ]

  -- The lists from `u` to the last one are emptied; the ones before are empty already.
  pub unregister_from_lem :
      (k u : ℕ) (s : Sessions) (r : SessionResources)
      → u + k ≡ res_max
      → (s.sess sess).resources ≡ some r
      → ((t : ℕ) → IsTyped s t (r.registered t))
      → ((t : ℕ) → (t < u) ⊎ (res_max ≤ t) → r.registered t ≡ [])
      → IsCounted ss s
      → (s' : Sessions) × (r' : SessionResources) × (unregister_from k u sess s ≡ ok s')
        × ((s'.sess sess).resources ≡ some r')
        × ((t : ℕ) → r'.registered t ≡ [])
        × IsCounted ss s'
        × Kept sess s s'
  unfolding unregister_from
  unregister_from_lem zero u s r e has_r typed before counted = (
    s,
    r,
    refl,
    has_r,
    (λ t. elim (Bool-cases (leb u t)) [
      | inl h ↦ before t (inr (ground arith))
      | inr h ↦ before t (inl (ground arith))
    ]),
    counted,
    record {
      ids = refl;
      running = refl;
      initialized = refl;
      id = refl;
      others = λ q n. refl;
      types = λ x. refl;
    },
  )
  unregister_from_lem (suc k) u s r e has_r typed before counted =
      let (s1, run, one) =
        unregister_list_lem u (r.registered u) s r (omega arith) has_r refl (typed u) counted in
      let typed1 : (t : ℕ) → IsTyped s1 t (one.after.registered t) =
        λ t x i. Emptied-IsTyped u t x r s s1 one (typed t) i in
      let before1 : (t : ℕ) → (t < u + 1) ⊎ (res_max ≤ t) → one.after.registered t ≡ [] =
        λ t h. Emptied-before u t r s s1 one (before t) h in
      let (s', r', runs, has_r', empty, counted', kept) =
        unregister_from_lem k (u + 1) s1 one.after (omega arith) one.has_after typed1 before1
          one.counted in
      (
        s',
        r',
        rw (unregister_from, has_r, run, runs),
        has_r',
        empty,
        counted',
        Kept-trans one.kept kept,
      )
