-- ===== src/Ring/Examples.antt =====
-- A ring of two entries in list.h's operations.
use vaccel_google_test.Common.{◌≡◌, refl, [], ◌∷◌, ◌==◌, if◌then◌else◌, some, arith}
use vaccel_google_test.Ring.{Links, list_unlink_entry, drain_all}
use vaccel_google_test.Ring.Chain.{IsRing}
use vaccel_google_test.Ring.Unlink.{list_unlink_entry-IsRing}
use vaccel_google_test.Ring.Walk.{drain_all-Drained, Drained}

abbrev two_entries : Links
two_entries = record {
  next = λ p. if p == 1 then 2 else if p == 2 then 3 else 1;
  prev = λ p. if p == 1 then 3 else if p == 2 then 1 else 2;
}

two_entries-IsRing : IsRing two_entries 1 (2 ∷ 3 ∷ [])
two_entries-IsRing = record {
  chain = (refl, refl, (refl, refl, (refl, refl)));
  distinct = (refl, (refl, (refl, tt)));
}

list_unlink_entry-IsRing_example :
    IsRing (list_unlink_entry 3 two_entries) 1 (2 ∷ [])
    × IsRing (list_unlink_entry 3 two_entries) 3 []
list_unlink_entry-IsRing_example = list_unlink_entry-IsRing 3 (2 ∷ []) [] two_entries-IsRing

drain_all-Drained_example :
    (g : Links) × (drain_all 3 1 two_entries ≡ some g) × Drained two_entries 1 (2 ∷ 3 ∷ []) g
drain_all-Drained_example = drain_all-Drained 3 two_entries-IsRing (omega arith)
