-- ===== src/Api/RateLimit/Keys.antt =====
-- Which requests crates/api/src/rate_limit.rs puts down to one client.
use flagforge.Prelude.{
  ◌≡◌, ◌≢◌, refl, ap, sym, ◌∙◌, true, false, none, some, [], ◌∷◌, ◌++◌, arith, All, ==_iff, is_nil,
  if◌then◌else◌,
}
use flagforge.Text.{Text, text, is_whitespace}
use flagforge.Text.Trim.{trim_start, trim_end, trim}
use flagforge.Api.RateLimit.{before_comma, address_key, client_key}

-- Only white space.
abbrev pub Blank : Text → Type 0
Blank = All (λ c. is_whitespace c ≡ true)

-- Neither a comma nor white space.
abbrev pub Plain : Text → Type 0
Plain = All (λ c. (c ≢ 44) × (is_whitespace c ≡ false))

NoComma : Text → Type 0
NoComma = All (λ c. c ≢ 44)

append-NoComma : (s t : Text) → NoComma s → NoComma t → NoComma (s ++ t)
unfolding NoComma
append-NoComma [] t h k = k
append-NoComma (c ∷ s) t h k = (h.0, append-NoComma s t h.1 k)

Blank-NoComma : (s : Text) → Blank s → NoComma s
unfolding NoComma is_whitespace
Blank-NoComma [] h = tt
Blank-NoComma (c ∷ s) h = (
  (λ e. let comma : is_whitespace 44 ≡ true = ap is_whitespace (sym e) ∙ h.0 in cc comma),
  Blank-NoComma s h.1,
)

Plain-NoComma : (s : Text) → Plain s → NoComma s
unfolding NoComma
Plain-NoComma [] h = tt
Plain-NoComma (c ∷ s) h = (h.0.0, Plain-NoComma s h.1)

before_comma-append :
    (address rest : Text) → NoComma address → before_comma (address ++ 44 ∷ rest) ≡ address
unfolding before_comma NoComma
before_comma-append [] rest h = refl
before_comma-append (c ∷ address) rest h =
    ground (arith, before_comma-append address rest h.1, h.0, ==_iff c 44)

before_comma-whole : (address : Text) → NoComma address → before_comma address ≡ address
unfolding before_comma NoComma
before_comma-whole [] h = refl
before_comma-whole (c ∷ address) h =
    ground (arith, before_comma-whole address h.1, h.0, ==_iff c 44)

trim_start-append : (before s : Text) → Blank before → trim_start (before ++ s) ≡ trim_start s
unfolding trim_start
trim_start-append [] s h = refl
trim_start-append (c ∷ before) s h = ground (arith, h.0, trim_start-append before s h.1)

trim_end-Blank : (after : Text) → Blank after → trim_end after ≡ []
unfolding trim_end
trim_end-Blank [] h = refl
trim_end-Blank (c ∷ after) h = ground (arith, h.0, trim_end-Blank after h.1)

trim_end-append :
    (address after : Text) → Plain address → Blank after → trim_end (address ++ after) ≡ address
unfolding trim_end
trim_end-append [] after h k = trim_end-Blank after k
trim_end-append (c ∷ address) after h k =
    let rest = trim_end-append address after h.1 k in let ink = h.0.1 in ground (arith, rest, ink)

trim-append :
    (before address after : Text)
    → Blank before
    → Plain address
    → Blank after
    → trim (before ++ (address ++ after)) ≡ address
unfolding trim trim_start trim_end
trim-append before [] after h p k = ap trim_end (trim_start-append before after h) ∙ blank after k
  where
    blank : (s : Text) → Blank s → trim_end (trim_start s) ≡ []
    blank [] k = refl
    blank (c ∷ s) k = ground (arith, k.0, blank s k.1)
trim-append before (c ∷ address) after h p k =
    let ink = p.0.1 in
    let stop : trim_start (c ∷ (address ++ after)) ≡ c ∷ (address ++ after) = ground (arith, ink) in
    ap trim_end (trim_start-append before (c ∷ (address ++ after)) h ∙ stop)
    ∙ trim_end-append (c ∷ address) after p k

first-NoComma :
    (before address after : Text)
    → Blank before
    → Plain address
    → Blank after
    → NoComma (before ++ (address ++ after))
first-NoComma before address after h p k =
    append-NoComma before (address ++ after) (Blank-NoComma before h)
      (append-NoComma address after (Plain-NoComma address p) (Blank-NoComma after k))

-- A request without a credential is put down to the first address of its `X-Forwarded-For`: for an
-- address without commas and white space, in white space, alone or with anything after a comma,
-- the key is `ip:` and the address, or `anonymous` if the address is empty.
pub client_key-forwarded :
    (hash : Text → Text) (before address after rest : Text)
    → Blank before
    → Plain address
    → Blank after
    → let first = before ++ (address ++ after) in
      let key = if is_nil address then text "anonymous" else text "ip:" ++ address in
      (client_key hash (record { authorization = none; forwarded_for = some first }) ≡ key)
      × (client_key hash
            (record { authorization = none; forwarded_for = some (first ++ 44 ∷ rest) })
          ≡ key)
unfolding client_key
client_key-forwarded hash before address after rest h p k =
    let first = before ++ (address ++ after) in
    let apart = first-NoComma before address after h p k in
    let trimmed = trim-append before address after h p k in
    (
      ap address_key (ap trim (before_comma-whole first apart) ∙ trimmed),
      ap address_key (ap trim (before_comma-append first rest apart) ∙ trimmed),
    )
