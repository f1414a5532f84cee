-- ===== src/Ops/Image.antt =====
-- src/ops/image.c: the image operations, which are profiled: an operation returns its reply and the
-- region `image_op_stats`.
use vaccel_google_test.Common.{
  ℕ, Option, none, some, ltb, ◌==◌, if◌then◌else◌, ◌&&◌, not, List, [], ◌∷◌,
}
use vaccel_google_test.Common.Code.{vaccel_einval, vaccel_enotsup}
use vaccel_google_test.Common.Memory.{Ptr, null, Outcome, ok, ◌>>=◌}
use vaccel_google_test.Plugins.{get_plugin_op}
use vaccel_google_test.Prof.State.{Region, vaccel_prof_region_start, vaccel_prof_region_stop}
use vaccel_google_test.Ops.State.{
  Args, Machine, Reply, answer, plugin, arg, vaccel_img_class, vaccel_img_detec, vaccel_img_segme,
  vaccel_img_pose, vaccel_img_depth,
}

-- The arguments of the plugin: with a text buffer, or without.
abbrev pub image_args :
    (img out_text out_imgname : Ptr) (len_img len_out_text len_out_imgname : ℕ) → List ℕ
image_args img out_text out_imgname len_img len_out_text len_out_imgname =
    if not (out_text == null) && ltb 0 len_out_text
    then img ∷ out_text ∷ out_imgname ∷ len_img ∷ len_out_text ∷ len_out_imgname ∷ []
    else img ∷ out_imgname ∷ len_img ∷ len_out_imgname ∷ []

-- The plugin's part of `vaccel_image_op`.
unfoldable pub image_reply : Ptr → (sess : Ptr) → List ℕ → Reply
image_reply plugin_op sess args =
    if plugin_op == null then answer vaccel_enotsup else plugin plugin_op (sess ∷ args)

-- The region behind `&image_op_stats`.
abbrev pub region_of : Option Region → Region → Region
region_of none old = old
region_of (some r) old = r

unfoldable pub vaccel_image_op :
    (op_type : ℕ)
    → Machine
    → (sess img out_text out_imgname : Ptr) → (len_img len_out_text len_out_imgname : ℕ)
    → Outcome (Reply × Region)
vaccel_image_op op_type m sess img out_text out_imgname len_img len_out_text len_out_imgname =
    let args = image_args img out_text out_imgname len_img len_out_text len_out_imgname in
    if sess == null
    then ok (answer vaccel_einval, m.image_op_stats)
    else (vaccel_prof_region_start m.entering (some m.image_op_stats) >>= λ (_, begun).
        get_plugin_op op_type (m.hint sess) m.plugins >>= λ plugin_op.
        vaccel_prof_region_stop m.leaving begun >>= λ (_, ended).
        ok (image_reply plugin_op sess args, region_of ended m.image_op_stats))

unfoldable pub vaccel_image_op_no_text :
    (op_type : ℕ)
    → Machine
    → (sess img out_imgname : Ptr) → (len_img len_out_imgname : ℕ) → Outcome (Reply × Region)
vaccel_image_op_no_text op_type m sess img out_imgname len_img len_out_imgname =
    vaccel_image_op op_type m sess img null out_imgname len_img 0 len_out_imgname

unfoldable pub vaccel_image_op_unpack :
    (op_type : ℕ)
    → Machine
    → (sess : Ptr) (read : Args) (nr_read nr_read_req : ℕ) (write : Args)
    → (nr_write nr_write_req : ℕ) → Outcome (Reply × Region)
vaccel_image_op_unpack op_type m sess read nr_read nr_read_req write nr_write nr_write_req =
    if not (nr_read == nr_read_req)
    then ok (answer vaccel_einval, m.image_op_stats)
    else if not (nr_write == nr_write_req)
    then ok (answer vaccel_einval, m.image_op_stats)
    else (arg read 0 >>= λ img.
        if nr_write_req == 2
        then (arg write 0 >>= λ out_text. arg write 1 >>= λ out_imgname.
            vaccel_image_op op_type m sess img.buf out_text.buf out_imgname.buf img.size
              out_text.size out_imgname.size)
        else (arg write 0 >>= λ out_imgname.
            vaccel_image_op_no_text op_type m sess img.buf out_imgname.buf img.size
              out_imgname.size))

-- An unpacking function that may write to the profile.
abbrev pub ProfiledFunc : Type 0
ProfiledFunc =
    Machine
    → (sess : Ptr) (read : Args) (nr_read : ℕ) (write : Args) (nr_write : ℕ)
    → Outcome (Reply × Region)

unfoldable pub vaccel_image_classification :
    Machine
    → (sess img out_text out_imgname : Ptr) (len_img len_out_text len_out_imgname : ℕ)
    → Outcome (Reply × Region)
vaccel_image_classification = vaccel_image_op vaccel_img_class

unfoldable pub vaccel_image_classification_unpack : ProfiledFunc
vaccel_image_classification_unpack m sess read nr_read write nr_write =
    vaccel_image_op_unpack vaccel_img_class m sess read nr_read 1 write nr_write 2

unfoldable pub vaccel_image_detection :
    Machine → (sess img out_imgname : Ptr) (len_img len_out_imgname : ℕ) → Outcome (Reply × Region)
vaccel_image_detection = vaccel_image_op_no_text vaccel_img_detec

unfoldable pub vaccel_image_detection_unpack : ProfiledFunc
vaccel_image_detection_unpack m sess read nr_read write nr_write =
    vaccel_image_op_unpack vaccel_img_detec m sess read nr_read 1 write nr_write 1

unfoldable pub vaccel_image_segmentation :
    Machine → (sess img out_imgname : Ptr) (len_img len_out_imgname : ℕ) → Outcome (Reply × Region)
vaccel_image_segmentation = vaccel_image_op_no_text vaccel_img_segme

unfoldable pub vaccel_image_segmentation_unpack : ProfiledFunc
vaccel_image_segmentation_unpack m sess read nr_read write nr_write =
    vaccel_image_op_unpack vaccel_img_segme m sess read nr_read 1 write nr_write 1

unfoldable pub vaccel_image_pose :
    Machine → (sess img out_imgname : Ptr) (len_img len_out_imgname : ℕ) → Outcome (Reply × Region)
vaccel_image_pose = vaccel_image_op_no_text vaccel_img_pose

unfoldable pub vaccel_image_pose_unpack : ProfiledFunc
vaccel_image_pose_unpack m sess read nr_read write nr_write =
    vaccel_image_op_unpack vaccel_img_pose m sess read nr_read 1 write nr_write 1

unfoldable pub vaccel_image_depth :
    Machine → (sess img out_imgname : Ptr) (len_img len_out_imgname : ℕ) → Outcome (Reply × Region)
vaccel_image_depth = vaccel_image_op_no_text vaccel_img_depth

unfoldable pub vaccel_image_depth_unpack : ProfiledFunc
vaccel_image_depth_unpack m sess read nr_read write nr_write =
    vaccel_image_op_unpack vaccel_img_depth m sess read nr_read 1 write nr_write 1
