-- ===== src/Prof/Examples.antt =====
-- A region of two samples, both in use, and an array of two regions.
use vaccel_google_test.Common.{
  ◌≡◌, ◌⊎◌, ℕ, List, ◌++◌, refl, none, some, [], ◌∷◌, arith, true, false,
}
use vaccel_google_test.Common.Code.{Code, vaccel_ok, vaccel_enomem}
use vaccel_google_test.Common.Memory.{ok, fault}
use vaccel_google_test.Prof.State.{
  Region, Line, add_times, Env, text, start_region, stop_region, report,
}
use vaccel_google_test.Prof.Regions.{clear_region, report_all}
use vaccel_google_test.Prof.Samples.{IsRegion, Begun, start_region-Begun}
use vaccel_google_test.Prof.Stops.{report-sum, clear_region-fault}
use vaccel_google_test.Prof.Buffer.{
  joined, vaccel_prof_regions_print_all_to_buf, vaccel_prof_regions_print_all_to_buf-sized,
}
use vaccel_google_test.Prof.Overrun.{vaccel_prof_regions_print_all_to_buf-overrun}

abbrev env : Env
env = record {
  enabled = true;
  now = 70;
  name_granted = true;
  realloc = some (record { start = 0; time = 0 });
}

abbrev two_samples : Region
two_samples = record {
  name = text (b'a' ∷ []);
  name_owned = true;
  nr_entries = 2;
  samples = some (record { start = 10; time = 5 } ∷ record { start = 50; time = 0 } ∷ []);
  size = 2;
}

two_samples-IsRegion : IsRegion two_samples
two_samples-IsRegion = record { room = refl; entries = omega arith; bounded = omega arith }

start_region-Begun_example :
    (c : Code) × (r' : Region) × (start_region env two_samples ≡ ok (c, r'))
    × (((c ≡ vaccel_ok) × Begun 70 two_samples r') ⊎ ((c ≡ vaccel_enomem) × (r' ≡ two_samples)))
start_region-Begun_example = start_region-Begun env two_samples two_samples-IsRegion (omega arith)

report-sum_example :
    report two_samples
    ≡ ok (record { name = text (b'a' ∷ []); total_time = 5; nr_entries = 2 } ∷ [])
report-sum_example = report-sum two_samples two_samples-IsRegion (ground arith)

clear_region-fault_example :
    (stop_region env (clear_region two_samples) ≡ fault)
    × (report (clear_region two_samples) ≡ fault)
clear_region-fault_example = clear_region-fault env two_samples (ground arith)

abbrev no_samples : Region
no_samples = record {
  name = text (b'a' ∷ []);
  name_owned = false;
  nr_entries = 0;
  samples = none;
  size = 0;
}

-- A text of two bytes, and what a report of two regions leads to.
abbrev format : Line → List ℕ
format line = b'a' ∷ line.nr_entries ∷ []

abbrev line : Line
line = record { name = text (b'a' ∷ []); total_time = 5; nr_entries = 2 }

abbrev seven_bytes : List ℕ
seven_bytes = 0 ∷ 0 ∷ 0 ∷ 0 ∷ 0 ∷ 0 ∷ 9 ∷ []

abbrev two_bytes : List ℕ
two_bytes = 0 ∷ 0 ∷ []

reported : report_all (two_samples ∷ two_samples ∷ []) ≡ ok (line ∷ line ∷ [])
unfolding report_all report add_times
reported = refl

vaccel_prof_regions_print_all_to_buf-sized_example :
    (vaccel_prof_regions_print_all_to_buf format env false none
        (some (two_samples ∷ two_samples ∷ []))
      ≡ ok (6, none))
    × ((left : List ℕ) × (vaccel_prof_regions_print_all_to_buf format env true
            (some seven_bytes)
            (some (two_samples ∷ two_samples ∷ []))
          ≡ ok (2, some (joined (format line ∷ format line ∷ []) ++ left))))
vaccel_prof_regions_print_all_to_buf-sized_example =
    vaccel_prof_regions_print_all_to_buf-sized format env (two_samples ∷ two_samples ∷ [])
      (line ∷ line ∷ []) seven_bytes refl reported (omega arith) (omega arith) (omega arith)

vaccel_prof_regions_print_all_to_buf-overrun_example :
    vaccel_prof_regions_print_all_to_buf format env true
      (some two_bytes)
      (some (two_samples ∷ two_samples ∷ []))
    ≡ fault
vaccel_prof_regions_print_all_to_buf-overrun_example =
    vaccel_prof_regions_print_all_to_buf-overrun format env (two_samples ∷ two_samples ∷ []) line
      line [] two_bytes refl reported (omega arith) (omega arith) (omega arith)
