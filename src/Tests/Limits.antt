-- ===== src/Tests/Limits.antt =====
-- The rate limiter at concrete inputs.
use flagforge.Prelude.{
  ℕ, ◌-◌, ◌+◌, ◌*◌, ◌/◌, ◌≡◌, refl, none, some, ◌∷◌, ◌++◌, arith, min, max, ltb, leb,
}
use flagforge.Text.{text, is_whitespace}
use flagforge.Api.RateLimit.{Rates, RateLimiter, new, check, client_key}
use flagforge.Api.RateLimit.Clients.{Untouched, check-Untouched}
use flagforge.Api.RateLimit.Keys.{client_key-forwarded}

-- Natural numbers in the place of `f64`, and whole seconds.
instance abbrev whole_numbers : Rates
whole_numbers = record {
  F64 = ℕ;
  of_u32 = λ n. n;
  secs = λ n. n / 1000000000;
  add = ◌+◌;
  sub = ◌-◌;
  mul = ◌*◌;
  div = ◌/◌;
  min_of = min;
  max_of = max;
  ceil = λ v. v;
  lt = ltb;
  le = leb;
  as_u64 = λ v. v;
}

abbrev limiter : RateLimiter
limiter = (check (new 2 1) (text "bob") 5).1

check-Untouched_example :
    Untouched (text "bob") 7 limiter.buckets (check limiter (text "ada") 7).1.buckets
unfolding text
check-Untouched_example =
    check-Untouched limiter (text "ada") (text "bob") 7 (λ e. ground (arith, e))

client_key-forwarded_example :
    let first = text " " ++ (text "1.2" ++ text " ") in
    (client_key (λ c. c) (record { authorization = none; forwarded_for = some first })
      ≡ text "ip:" ++ text "1.2")
    × (client_key
          (λ c. c)
          (record { authorization = none; forwarded_for = some (first ++ 44 ∷ text "9.9") })
        ≡ text "ip:" ++ text "1.2")
unfolding text is_whitespace
client_key-forwarded_example =
    client_key-forwarded (λ c. c) (text " ") (text "1.2") (text " ") (text "9.9") (refl, tt)
      (((λ e. cc), refl), (((λ e. cc), refl), (((λ e. cc), refl), tt))) (refl, tt)
