-- ===== src/Core/Checks/Accepts.antt =====
-- What the checks of crates/core/src/validate.rs accept: each pushes no issue exactly if its part is
-- well formed.
use flagforge.Prelude.{
  ℕ, ◌+◌, ◌≡◌, ◌≢◌, refl, ◌↔◌, Bool, true, false, not, Option, none, some, List, [], ◌∷◌, ◌++◌, map,
  arith, All, append-eq-nil, if◌then◌else◌, ◌==◌, ==_iff, ok,
}
use flagforge.Prelude.Iff.{↔-trans}
use flagforge.Prelude.Distinct.{Distinct, Fresh, Fresh-nil_iff}
use flagforge.Text.{Text, text_eq, text_eq_iff, is_blank}
use flagforge.TextMap.{TextSet, set_contains}
use flagforge.Core.Flag.{
  Distribution, fixed, rollout, WeightedVariant, SegmentMatch, match_is_empty, referenced,
  total_weight,
}
use flagforge.Core.Checks.{
  Issues, unless, verdict, check_bucket_by, check_weights, total_of, check_rollout,
  check_distribution, check_names, check_conflicts, check_segment_match,
}

pub unless_iff : (b : Bool) (path message : Text) → (unless b path message ≡ []) ↔ (b ≡ true)
unfolding unless
unless_iff b path message = ground arith

pub verdict_iff : (is' : Issues) → (verdict is' ≡ ok tt) ↔ (is' ≡ [])
verdict_iff [] = ground arith
verdict_iff (i ∷ is') = ground arith

-- Two checks in a row.
pub both_iff {ℓ κ} :
    {P : Type ℓ} {Q : Type κ} (xs ys : Issues)
    → (xs ≡ []) ↔ P
    → (ys ≡ []) ↔ Q
    → (xs ++ ys ≡ []) ↔ (P × Q)
both_iff xs ys p q = (
  λ h. let parts = append-eq-nil xs ys h in (p.0 parts.0, q.0 parts.1),
  λ h. rw (p.1 h.0, q.1 h.1) refl,
)

pub not-true_iff : (b : Bool) → (not b ≡ true) ↔ (b ≡ false)
not-true_iff b = ground arith

pub unless-not_iff :
    (b : Bool) (path message : Text) → (unless (not b) path message ≡ []) ↔ (b ≡ false)
unless-not_iff b path message = ↔-trans (unless_iff (not b) path message) (not-true_iff b)

-- An early return with one issue.
pub if-nil_iff {ℓ} :
    {P : Type ℓ} (b : Bool) (path message : Text) (xs : Issues)
    → (xs ≡ []) ↔ P
    → ((if b then unless false path message else xs) ≡ []) ↔ ((b ≡ false) × P)
if-nil_iff true path message xs p = (λ h. cc ((unless_iff false path message).0 h), λ h. cc (h.0))
if-nil_iff false path message xs p = (λ h. (refl, p.0 h), λ h. p.1 h.1)

-- The attribute to bucket on, if there is one, has a name.
abbrev pub IsNamed : Option Text → Type 0
IsNamed none = Unit
IsNamed (some a) = is_blank a ≡ false

pub check_bucket_by_iff :
    (o : Option Text) (path : Text) → (check_bucket_by o path ≡ []) ↔ IsNamed o
check_bucket_by_iff none path = (λ h. tt, λ h. refl)
check_bucket_by_iff (some a) path = unless-not_iff (is_blank a) path _

abbrev pub variants_of : List WeightedVariant → List Text
variants_of = map (λ w. w.variant)

check_weights_iff :
    (path : Text) (variants : TextSet) (i : ℕ) (seen : TextSet) (ws : List WeightedVariant)
    → (check_weights path variants i seen ws ≡ [])
      ↔ (All (λ w. set_contains variants w.variant ≡ true) ws × Fresh text_eq seen (variants_of ws))
unfolding check_weights set_contains
check_weights_iff path variants i seen [] = (λ h. (tt, tt), λ h. refl)
check_weights_iff path variants i seen (w ∷ ws) =
    ↔-trans
      (both_iff _ _
        (both_iff _ _ (unless_iff (set_contains variants w.variant) _ _)
          (unless-not_iff (set_contains seen w.variant) _ _))
        (check_weights_iff path variants (i + 1) (w.variant ∷ seen) ws))
      (λ h. ((h.0.0, h.1.0), (h.0.1, h.1.1)), λ h. ((h.0.0, h.1.0), (h.0.1, h.1.1)))

-- A rollout over the given variants.
pub record IsRollout (variants : TextSet) (ws : List WeightedVariant) (bucket_by : Option Text)
    : Type 0 where
  pub some_weight : ws ≢ []
  pub known : All (λ w. set_contains variants w.variant ≡ true) ws
  pub once : Distinct (variants_of ws)
  pub total : total_of 0 ws ≡ total_weight
  pub named : IsNamed bucket_by

-- What a distribution over the given variants has to be.
abbrev pub IsDistribution : TextSet → Distribution → Type 0
IsDistribution variants (fixed v) = set_contains variants v ≡ true
IsDistribution variants (rollout ws bucket_by) = IsRollout variants ws bucket_by

check_rollout_iff :
    (ws : List WeightedVariant) (bucket_by : Option Text) (path : Text) (variants : TextSet)
    → (check_rollout ws bucket_by path variants ≡ []) ↔ IsRollout variants ws bucket_by
unfolding check_rollout
check_rollout_iff [] bucket_by path variants =
    (λ h. cc ((unless_iff false _ _).0 h), λ r. absurd (r.some_weight refl))
check_rollout_iff (w ∷ ws) bucket_by path variants =
    ↔-trans
      (both_iff _ _
        (both_iff _ _ (check_weights_iff path variants 0 [] (w ∷ ws))
          (↔-trans (unless_iff (total_of 0 (w ∷ ws) == total_weight) _ _) (==_iff _ total_weight)))
        (check_bucket_by_iff bucket_by _))
      (
        λ h. record {
          some_weight = λ e. cc;
          known = h.0.0.0;
          once = (Fresh-nil_iff text_eq text_eq_iff (variants_of (w ∷ ws))).0 h.0.0.1;
          total = h.0.1;
          named = h.1;
        },
        λ r. (
          ((r.known, (Fresh-nil_iff text_eq text_eq_iff (variants_of (w ∷ ws))).1 r.once), r.total),
          r.named,
        ),
      )

pub check_distribution_iff :
    (d : Distribution) (path : Text) (variants : TextSet)
    → (check_distribution d path variants ≡ []) ↔ IsDistribution variants d
unfolding check_distribution
check_distribution_iff (fixed v) path variants = unless_iff (set_contains variants v) _ _
check_distribution_iff (rollout ws bucket_by) path variants =
    check_rollout_iff ws bucket_by path variants

-- A requirement names at least one segment, each by a name, and rules out none that it asks for.
pub record IsRequirement (m : SegmentMatch) : Type 0 where
  pub some_segment : match_is_empty m ≡ false
  pub named : All (λ k. is_blank k ≡ false) (referenced m)
  pub consistent : All (λ k. set_contains m.none_of k ≡ false) m.any_of

check_names_iff :
    (path : Text) (ks : List Text) → (check_names path ks ≡ []) ↔ All (λ k. is_blank k ≡ false) ks
unfolding check_names
check_names_iff path [] = (λ h. tt, λ h. refl)
check_names_iff path (k ∷ ks) =
    both_iff _ _ (unless-not_iff (is_blank k) _ _) (check_names_iff path ks)

check_conflicts_iff :
    (path : Text) (forbidden : TextSet) (ks : List Text)
    → (check_conflicts path forbidden ks ≡ []) ↔ All (λ k. set_contains forbidden k ≡ false) ks
unfolding check_conflicts
check_conflicts_iff path forbidden [] = (λ h. tt, λ h. refl)
check_conflicts_iff path forbidden (k ∷ ks) =
    both_iff _ _ (unless-not_iff (set_contains forbidden k) _ _)
      (check_conflicts_iff path forbidden ks)

pub check_segment_match_iff :
    (m : SegmentMatch) (path : Text) → (check_segment_match m path ≡ []) ↔ IsRequirement m
unfolding check_segment_match
check_segment_match_iff m path =
    ↔-trans
      (if-nil_iff (match_is_empty m) _ _ _ (
        both_iff _ _ (check_names_iff path (referenced m))
          (check_conflicts_iff path m.none_of m.any_of)))
      (
        λ h. record { some_segment = h.0; named = h.1.0; consistent = h.1.1 },
        λ r. (r.some_segment, (r.named, r.consistent)),
      )
