-- ===== src/Core/Snapshot/Laws.antt =====
-- The version of a snapshot, and the agreement of its two ways to evaluate, in
-- crates/core/src/snapshot.rs.
use flagforge.Prelude.{
  ℕ, ◌≡◌, ◌∙◌, sym, refl, ap, true, false, Option, none, some, List, [], ◌∷◌, ◌++◌, map, arith, All,
  All-append, All-mono,
}
use flagforge.Prelude.Int.{
  ℤ, le, maximum, maximum_from, max_of, le_trans, le-max_right, maximum_from-start,
}
use flagforge.Text.{Text, text_eq, text_eq_iff, text_eq_refl}
use flagforge.Text.Order.{text_lt_irrefl}
use flagforge.TextMap.{TextMap, lookup, values, keys}
use flagforge.TextMap.Sorted.{Before, Ascending, collect-Ascending}
use flagforge.Extern.{Extern}
use flagforge.Core.Value.{VariantValue}
use flagforge.Core.Context.{EvaluationContext}
use flagforge.Core.Flag.{Flag, Segment}
use flagforge.Core.Engine
use flagforge.Core.Engine.{Evaluation, not_found}
use flagforge.Core.Snapshot.{
  ExperimentSpec, EnvironmentSnapshot, flag_map, segment_map, versions, new, with_experiments, env,
  evaluate, evaluate_all,
}

maximum_from-upper : (m : ℤ) (as' : List ℤ) → All (λ a. le a (maximum_from m as') ≡ true) as'
unfolding maximum_from
maximum_from-upper m [] = tt
maximum_from-upper m (a ∷ as') = (
  le_trans a (max_of m a) _ (le-max_right m a) (maximum_from-start (max_of m a) as'),
  maximum_from-upper (max_of m a) as',
)

pub maximum-upper : (as' : List ℤ) → All (λ a. le a (maximum as') ≡ true) as'
unfolding maximum
maximum-upper [] = tt
maximum-upper (a ∷ as') = (maximum_from-start a as', maximum_from-upper a as')

lookup-Before : {V : Type 0} (k : Text) (m : TextMap V) → Before k (keys m) → lookup k m ≡ none
unfolding lookup
lookup-Before k [] b = refl
lookup-Before k ((j, v) ∷ m) b =
    ground (arith, text_eq_iff k j, text_lt_irrefl k, lookup-Before k m b.1)

-- An entry in front of a map does not change what is found under the keys behind it.
map-lookup_behind :
    {V B : Type 0} (g : Text → Option V → B) (k : Text) (v : V) (m : TextMap V) (ks : List Text)
    → Before k ks
    → map (λ j. g j (lookup j ((k, v) ∷ m))) ks ≡ map (λ j. g j (lookup j m)) ks
unfolding lookup
map-lookup_behind g k v m [] b = refl
map-lookup_behind g k v m (j ∷ ks) b =
    let apart : text_eq j k ≡ false = ground (arith, text_eq_iff j k, text_lt_irrefl k, b.0) in
    rw apart (ap (◌∷◌ (g j (lookup j m))) (map-lookup_behind g k v m ks b.1))

-- Going through the keys of an ordered map in turn finds its values in turn.
map-lookup :
    {V B : Type 0} (f : V → B) (g : Text → Option V → B) (m : TextMap V)
    → ((k : Text) (v : V) → g k (some v) ≡ f v)
    → Ascending (keys m)
    → map f (values m) ≡ map (λ k. g k (lookup k m)) (keys m)
unfolding lookup values
map-lookup f g [] h a = refl
map-lookup f g ((k, v) ∷ m) h a =
    rw (text_eq_refl k, h k v)
      (ap (◌∷◌ (f v)) (map-lookup f g m h a.1 ∙ sym (map-lookup_behind g k v m (keys m) a.0)))

module _ ⦃x : Extern⦄ where
  -- The keys of a snapshot's flags and segments are in strictly ascending order.
  pub record IsOrdered (s : EnvironmentSnapshot) : Type 0 where
    pub flags : Ascending (keys s.flags)
    pub segments : Ascending (keys s.segments)

  -- A new snapshot has its flags and its segments in strictly ascending order of their keys.
  pub new-IsOrdered :
      (id : ℕ) (key salt : Text) (flags : List Flag) (segments : List Segment)
      → IsOrdered (new id key salt flags segments)
  unfolding new
  new-IsOrdered id key salt flags segments = record {
    flags = collect-Ascending [] (map (λ f. (f.key, f)) flags) tt;
    segments = collect-Ascending [] (map (λ s. (s.key, s)) segments) tt;
  }

  -- On a snapshot whose flags and segments are in ascending order of their keys, evaluating
  -- everything is evaluating each flag by its key in that order, whatever the fallback.
  pub evaluate_all-evaluate :
      (s : EnvironmentSnapshot) (ctx : EvaluationContext) (fallback : VariantValue)
      → IsOrdered s
      → evaluate_all s ctx ≡ map (λ k. evaluate s k ctx fallback) (keys s.flags)
  unfolding evaluate_all evaluate
  evaluate_all-evaluate s ctx fallback o =
      map-lookup (λ flag. Engine.evaluate flag ctx (env s))
        (λ k found. elim found [
          | some flag ↦ Engine.evaluate flag ctx (env s)
          | none ↦ not_found k fallback
        ])
        s.flags (λ k flag. refl) o.flags

  -- The version of a snapshot is at least that of each of its flags, segments and experiments.
  pub with_experiments_version :
      (id : ℕ) (key salt : Text) (flags : List Flag) (segments : List Segment)
      (experiments : List ExperimentSpec)
      → let s = with_experiments (new id key salt flags segments) experiments in
        All (λ v. le v s.version ≡ true) (versions s.flags s.segments)
        × All (λ v. le v s.version ≡ true) (map (λ e. e.version) s.experiments)
  unfolding with_experiments new
  with_experiments_version id key salt flags segments experiments =
      let base = versions (flag_map flags) (segment_map segments) in
      let all' = maximum-upper (map (λ e. e.version) experiments ++ maximum base ∷ []) in
      let parts = (All-append _ (map (λ e. e.version) experiments) (maximum base ∷ [])).0 all' in
      (
        All-mono (λ v below. le_trans v (maximum base) _ below parts.1.0) base (maximum-upper base),
        parts.0,
      )
