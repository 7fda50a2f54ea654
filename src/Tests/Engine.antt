-- ===== src/Tests/Engine.antt =====
-- Decisions, buckets and snapshots at concrete inputs.
use flagforge.Prelude.{◌≡◌, refl, true, false, some, [], ◌∷◌, map, arith, All}
use flagforge.Prelude.Int.{le}
use flagforge.Text.{Text, text, text_eq}
use flagforge.TextMap.{keys}
use flagforge.Core.Value.{VariantValue}
use flagforge.Core.Bucket.{pick_weighted}
use flagforge.Core.Bucket.Preimage.{preimage-injective}
use flagforge.Core.Bucket.Weights.{
  count_below, is_variant, sum_weights, weight_of, IsU32, count-pick_weighted,
}
use flagforge.Core.Engine.{target_match, fallthrough, off, evaluate}
use flagforge.Core.Engine.Decisions.{Decided, evaluate_lem}
use flagforge.Core.Engine.Outcomes.{IsDecision, evaluate-IsDecision}
use flagforge.Core.Snapshot
use flagforge.Core.Snapshot.{new, with_experiments, versions}
use flagforge.Core.Snapshot.Laws.{evaluate_all-evaluate, with_experiments_version}
use flagforge.Tests.Toy.{toy, flag, env, ada, bob, halves, beta, experiment, snapshot, opened}

evaluate_tests :
    ((evaluate flag ada env).reason ≡ target_match 7 0)
    × ((evaluate flag ada env).variant ≡ some (text "on"))
    × ((evaluate flag bob env).reason ≡ fallthrough)
    × ((evaluate (record flag { enabled = false }) ada env).reason ≡ off)
unfolding opened
evaluate_tests = (refl, refl, refl, refl)

evaluate_lem_example : Decided flag ada env (evaluate flag ada env)
evaluate_lem_example = evaluate_lem flag ada env

evaluate-IsDecision_example : IsDecision flag (evaluate flag bob env)
evaluate-IsDecision_example = evaluate-IsDecision flag bob env

abbrev halves-IsU32 : IsU32 halves
halves-IsU32 = ((omega arith, (omega arith, tt)), omega arith)

count-pick_weighted_example :
    count_below (sum_weights halves) (λ b. is_variant (text "on") (pick_weighted halves b))
    ≡ weight_of (text "on") halves
count-pick_weighted_example = count-pick_weighted (text "on") halves halves-IsU32

preimage-injective_example : text "a" ∷ [] ≡ text "a" ∷ []
unfolding opened flagforge.Text.len
preimage-injective_example =
    preimage-injective (text "a" ∷ []) (text "a" ∷ []) refl (((omega arith, tt), omega arith), tt)
      (((omega arith, tt), omega arith), tt) refl

evaluate_all-evaluate_example :
    Snapshot.evaluate_all snapshot ada
    ≡ map (λ k. Snapshot.evaluate snapshot k ada (VariantValue.bool true)) (keys snapshot.flags)
evaluate_all-evaluate_example =
    evaluate_all-evaluate snapshot ada (VariantValue.bool true)
      (record { flags = (tt, tt); segments = (tt, tt) })

with_experiments_version_example :
    let s =
      with_experiments
        (new 1 (text "prod") (text "salt") (flag ∷ []) (beta ∷ []))
        (experiment ∷ []) in
    All (λ v. le v s.version ≡ true) (versions s.flags s.segments)
    × All (λ v. le v s.version ≡ true) (map (λ e. e.version) s.experiments)
with_experiments_version_example =
    with_experiments_version 1 (text "prod") (text "salt") (flag ∷ []) (beta ∷ []) (experiment ∷ [])
