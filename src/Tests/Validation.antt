-- ===== src/Tests/Validation.antt =====
-- Validation at concrete inputs, and what accepted flags are served.
use flagforge.Prelude.{◌≡◌, ◌≢◌, ◌↔◌, refl, arith, true, some, [], ◌∷◌, All, ok}
use flagforge.Text.{text}
use flagforge.Core.Flag.{variant, Variant}
use flagforge.Core.Bucket.{preimage}
use flagforge.Core.Matcher.{segment_namespace}
use flagforge.Core.Engine.{evaluate, is_healthy, error, missing_subject}
use flagforge.Core.Validate.{validate, validate_segment, validate_references}
use flagforge.Core.Validate.Accepts.{IsFlag, validate_iff}
use flagforge.Core.Validate.Segments.{
  IsSegment, RefersTo, validate_segment_iff, validate_references_iff,
}
use flagforge.Core.Validate.Healthy.{evaluate-healthy, evaluate_without_subject}
use flagforge.Core.Validate.Namespace.{preimage-segment_namespace}
use flagforge.Tests.Toy.{toy, flag, by_account, halves, env, ada, bob, beta, opened}

flag-valid : validate flag ≡ ok tt
unfolding opened
flag-valid = refl

by_account-valid : validate by_account ≡ ok tt
unfolding opened
by_account-valid = refl

validate_iff_example : (validate flag ≡ ok tt) ↔ IsFlag flag
validate_iff_example = validate_iff flag

evaluate-healthy_example : is_healthy (evaluate flag bob env).reason ≡ true
unfolding opened
evaluate-healthy_example =
    evaluate-healthy flag bob env flag-valid
      (((omega arith, (omega arith, tt)), omega arith), (λ e. cc)) (tt, tt)

evaluate_without_subject_example :
    (w : Variant) × (variant by_account by_account.off_variant ≡ some w)
    × ((evaluate by_account ada env).value ≡ w.value)
    × ((evaluate by_account ada env).reason ≡ error (missing_subject (some (text "account"))))
unfolding opened
evaluate_without_subject_example =
    evaluate_without_subject by_account ada env halves (some (text "account")) by_account-valid refl
      refl refl tt

validate_segment_iff_example : (validate_segment beta ≡ ok tt) ↔ IsSegment beta
validate_segment_iff_example = validate_segment_iff beta

validate_references_iff_example :
    (validate_references flag (text "beta" ∷ []) ≡ ok tt)
    ↔ All (RefersTo (text "beta" ∷ [])) flag.rules
validate_references_iff_example = validate_references_iff flag (text "beta" ∷ [])

preimage-segment_namespace_example :
    preimage (text "s" ∷ text "f" ∷ text "u" ∷ [])
    ≢ preimage (text "s" ∷ segment_namespace (text "b") ∷ text "u" ∷ [])
unfolding opened flagforge.Text.len segment_namespace
preimage-segment_namespace_example =
    preimage-segment_namespace (text "s") (text "s") (text "f") (text "b") (text "u") (text "u")
      refl ((omega arith, tt), omega arith) ((omega arith, tt), omega arith)
      ((omega arith, tt), omega arith) (ground arith, ground arith) ((omega arith, tt), omega arith)
      ((omega arith, tt), omega arith)
