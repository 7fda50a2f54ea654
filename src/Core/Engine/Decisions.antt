-- ===== src/Core/Engine/Decisions.antt =====
-- What `evaluate` of crates/core/src/engine.rs serves, and why.
use flagforge.Prelude.{
  ℕ, zero, suc, ◌+◌, ◌<◌, ◌≡◌, ◌∙◌, ap, refl, true, not, some, List, [], ◌∷◌, arith, All, get_elem?,
  if◌then◌else◌, Bool-cases, inl, inr, ◌⊎◌, false,
}
use flagforge.Extern.{Extern}
use flagforge.Core.Context.{EvaluationContext}
use flagforge.Core.Flag.{Rule, Flag}
use flagforge.Core.Matcher.{EvaluationEnv, rule_matches}
use flagforge.Core.Engine.{
  off, target_match, fallthrough, serve, resolve, serve_resolved, evaluate_from, evaluate,
  Evaluation,
}

module _ ⦃x : Extern⦄ where
  -- A rule at an index matches, and no rule before it does.
  pub record FirstMatch (rules : List Rule) (ctx : EvaluationContext) (env : EvaluationEnv) (i : ℕ)
      (rule : Rule) : Type 0 where
    pub at_index : get_elem? rules i ≡ some rule
    pub matching : rule_matches rule ctx env ≡ true
    pub earlier :
        (j : ℕ) (r : Rule) → j < i → get_elem? rules j ≡ some r → rule_matches r ctx env ≡ false

  FirstMatch-suc :
      {ctx : EvaluationContext} {env : EvaluationEnv} (r : Rule) (rules : List Rule) (i : ℕ)
      (rule : Rule)
      → rule_matches r ctx env ≡ false
      → FirstMatch rules ctx env i rule
      → FirstMatch (r ∷ rules) ctx env (suc i) rule
  FirstMatch-suc {ctx} {env} r rules i rule other f = record {
    at_index = f.at_index;
    matching = f.matching;
    earlier = earlier;
  }
    where
      earlier :
          (j : ℕ) (r' : Rule)
          → j < suc i
          → get_elem? (r ∷ rules) j ≡ some r'
          → rule_matches r' ctx env ≡ false
      earlier zero r' l e = let same : r ≡ r' = cc in rw (← same) other
      earlier (suc j) r' l e = f.earlier j r' (omega arith) e

  module _ (flag : Flag) (ctx : EvaluationContext) (env : EvaluationEnv) where
    evaluate_from_first :
        (index : ℕ) (rules : List Rule) (i n : ℕ) (rule : Rule)
        → FirstMatch rules ctx env i rule
        → n ≡ index + i
        → evaluate_from flag ctx env index rules
          ≡ serve_resolved flag
              (resolve flag rule.distribution ctx env.salt)
              (target_match rule.id n)
    unfolding evaluate_from
    evaluate_from_first index [] i n rule f e = cc (f.at_index)
    evaluate_from_first index (r ∷ rules) zero n rule f e =
        let same : r ≡ rule = cc (f.at_index) in
        let same_index : n ≡ index = omega arith in rw (same, f.matching, same_index) refl
    evaluate_from_first index (r ∷ rules) (suc i) n rule f e =
        rw (f.earlier zero r (omega arith) refl) (
          evaluate_from_first (index + 1) rules i n rule
            (record {
              at_index = f.at_index;
              matching = f.matching;
              earlier = λ j r' l e'. f.earlier (suc j) r' (omega arith) e';
            })
            (omega arith))

    pub evaluate_from_none :
        (index : ℕ) (rules : List Rule)
        → All (λ r. rule_matches r ctx env ≡ false) rules
        → evaluate_from flag ctx env index rules
          ≡ serve_resolved flag (resolve flag flag.fallthrough ctx env.salt) fallthrough
    unfolding evaluate_from
    evaluate_from_none index [] h = refl
    evaluate_from_none index (r ∷ rules) h = rw h.0 (evaluate_from_none (index + 1) rules h.1)

    pub evaluate-on :
        flag.enabled ≡ true → evaluate flag ctx env ≡ evaluate_from flag ctx env 0 flag.rules
    unfolding evaluate
    evaluate-on on =
        ap
          (λ b.
            if not b
            then serve flag flag.off_variant off
            else evaluate_from flag ctx env 0 flag.rules)
          on

    pub evaluate-off :
        flag.enabled ≡ false → evaluate flag ctx env ≡ serve flag flag.off_variant off
    unfolding evaluate
    evaluate-off no' =
        ap
          (λ b.
            if not b
            then serve flag flag.off_variant off
            else evaluate_from flag ctx env 0 flag.rules)
          no'

    -- What an evaluation comes from: the switch, the first matching rule, or the fallthrough.
    pub data Decided (e : Evaluation) : Type 0 where
      disabled : flag.enabled ≡ false → e ≡ serve flag flag.off_variant off → Decided e
      matched :
          (i : ℕ) (rule : Rule)
          → flag.enabled ≡ true
          → FirstMatch flag.rules ctx env i rule
          → e
            ≡ serve_resolved flag
                (resolve flag rule.distribution ctx env.salt)
                (target_match rule.id i)
          → Decided e
      unmatched :
          flag.enabled ≡ true
          → All (λ r. rule_matches r ctx env ≡ false) flag.rules
          → e ≡ serve_resolved flag (resolve flag flag.fallthrough ctx env.salt) fallthrough
          → Decided e

    search_rules :
        (rules : List Rule)
        → ((i : ℕ) × (rule : Rule) × FirstMatch rules ctx env i rule)
          ⊎ All (λ r. rule_matches r ctx env ≡ false) rules
    search_rules [] = inr tt
    search_rules (r ∷ rules) =
        let rest = search_rules rules in
        elim (Bool-cases (rule_matches r ctx env)) [
          | inl here ↦ inl (
            0,
            r,
            record { at_index = refl; matching = here; earlier = λ j r' l e. absurd (omega arith) },
          )
          | inr other ↦ elim rest [
            | inl (i, rule, f) ↦ inl (suc i, rule, FirstMatch-suc r rules i rule other f)
            | inr none' ↦ inr (other, none')
          ]
        ]

    -- A disabled flag serves its off variant; an enabled flag serves what the distribution of its
    -- first matching rule resolves to, with that rule and its index for the reason, and what its
    -- fallthrough resolves to if no rule matches.
    pub evaluate_lem : Decided (evaluate flag ctx env)
    evaluate_lem = elim (Bool-cases flag.enabled) [
      | inr no' ↦ disabled no' (evaluate-off no')
      | inl on ↦ elim (search_rules flag.rules) [
        | inl (i, rule, f) ↦
            matched i rule on f
              (evaluate-on on ∙ evaluate_from_first 0 flag.rules i i rule f (omega arith))
        | inr none' ↦ unmatched on none' (evaluate-on on ∙ evaluate_from_none 0 flag.rules none')
      ]
    ]
