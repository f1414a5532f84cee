-- ===== src/Ops/ExecResource.antt =====
-- What `vaccel_exec_with_res_unpack` of src/ops/exec.c asks of the plugins.
use vaccel_google_test.Common.{
  ℕ, ◌+◌, ◌^◌, ◌<◌, ◌≡◌, ◌≢◌, ap, inr, List, [], ◌∷◌, arith, ◌==◌, false,
}
use vaccel_google_test.Common.Code.{vaccel_ok, vaccel_enotsup}
use vaccel_google_test.Common.Memory.{Ptr, null, ok}
use vaccel_google_test.Resources.{resource_get_by_id}
use vaccel_google_test.Ops.State.{Arg, Args, Machine, answer, vaccel_exec_op}
use vaccel_google_test.Ops.Calls.{vaccel_exec}
use vaccel_google_test.Ops.Dispatch.{call_plugin-refused}
use vaccel_google_test.Ops.Unpack.{fewer_than_two, vaccel_exec_with_res_unpack}

-- A resource that is found, and whose object names a library.
pub record Found (garbage : Ptr) (m : Machine) (id : ℕ) (res path : Ptr) : Type 0 where
  pub looked_up : resource_get_by_id garbage id m.resources ≡ (vaccel_ok, res)
  pub object : (m.resources.res res).data_ptr ≢ null
  pub library : m.shared_object_path (m.resources.res res).data_ptr ≡ ok path

-- For a resource that is found and whose object names a library, and with a session and `n + 2`
-- arguments, `vaccel_exec_with_res_unpack` answers ENOTSUP where no plugin implements the plain
-- exec operation, whatever implements the one with a resource.
pub vaccel_exec_with_res_unpack-plain :
    (garbage : Ptr) (m : Machine) (sess : Ptr) (id_arg symbol : Arg) (rest : List Arg) (base : Ptr)
    → (n id : ℕ) (res path : Ptr) (write : Args) (nr_write : ℕ) → n + 2 < 2 ^ 31
    → m.load 8 id_arg.buf ≡ ok id
    → Found garbage m id res path
    → sess ≢ null
    → m.plugins.ops vaccel_exec_op ≡ []
    → vaccel_exec_with_res_unpack garbage m sess
        (record { base = base; items = id_arg ∷ symbol ∷ rest })
        (n + 2)
        write
        nr_write
      ≡ ok (answer vaccel_enotsup)
unfolding vaccel_exec_with_res_unpack vaccel_exec
vaccel_exec_with_res_unpack-plain garbage m sess id_arg symbol rest base n id res path write
      nr_write int e found ne none =
    let many : fewer_than_two (n + 2) ≡ false = ground arith in
    let code : (resource_get_by_id garbage id m.resources).0 ≡ vaccel_ok =
      ap (λ p. p.0) found.looked_up in
    let it : (resource_get_by_id garbage id m.resources).1 ≡ res = ap (λ p. p.1) found.looked_up in
    let there : ((m.resources.res res).data_ptr == null) ≡ false = ground (arith, found.object) in
    rw (vaccel_exec_with_res_unpack, many, e, code, it, there, found.library)
      (call_plugin-refused vaccel_exec_op m sess _ ne (inr none)).1
