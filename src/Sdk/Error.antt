-- ===== src/Sdk/Error.antt =====
-- crates/sdk/src/error.rs, and how crates/sdk/src/client.rs turns a response into a result. The
-- errors of `reqwest` and `serde_json` are given by their texts.
use flagforge.Prelude.{
  ℕ, ◌≡◌, refl, ◌↔◌, Bool, true, false, not, ◌&&◌, ◌||◌, Option, none, some, [], arith,
  Result-cases, inl, inr, ltb, leb, ◌==◌, if◌then◌else◌, take, unwrap_or, Result, ok, err,
}
use flagforge.Text.{Text}

pub data Error : Type 0 where
  invalid_url unauthorized transport malformed : (message : Text) → Error
  api : (status : ℕ) (message : Text) → Error

unfoldable pub is_transient : Error → Bool
is_transient (transport message) = true
is_transient (api status message) = leb 500 status || status == 429
is_transient _ = false

-- What comes back: a status, and a body that may fail to arrive.
pub record Response : Type 0 where
  pub status : ℕ
  pub body : Result Text Text

-- `problem_title` is the title in the JSON of a problem document, if it is one with a title.
module _ (problem_title : Text → Option Text) where
  unfoldable pub detail : Text → Text
  detail body = unwrap_or (problem_title body) (take 200 body)

  -- The status of a response that is a failure.
  unfoldable pub refused : ℕ → Text → Option Error
  refused status body =
      if status == 401 || status == 403
      then some (unauthorized (detail body))
      else if not (leb 200 status && ltb status 300)
      then some (api status (detail body))
      else none

  abbrev body_or_default : Result Text Text → Text
  body_or_default (ok body) = body
  body_or_default (err e) = []

  abbrev pub accepted : Option Error → Result (Unit {0}) Error
  accepted none = ok tt
  accepted (some e) = err e

  -- What `post_events` makes of the reply to a batch.
  unfoldable pub posted : Result Response Text → Result (Unit {0}) Error
  unfolding refused
  posted (err e) = err (transport e)
  posted (ok r) = accepted (refused r.status (body_or_default r.body))

  -- What `fetch` makes of the reply to a download, which `parse` reads.
  module _ {S : Type 0} (parse : Text → Result S Text) where
    abbrev pub read_snapshot : Option Error → Text → Result S Error
    read_snapshot (some e) body = err e
    read_snapshot none body = elim (parse body) [ ok s ↦ ok s | err e ↦ err (malformed e) ]

    abbrev pub read_body : ℕ → Result Text Text → Result S Error
    read_body status (err e) = err (transport e)
    read_body status (ok body) = read_snapshot (refused status body) body

    unfoldable pub fetched : Result Response Text → Result S Error
    unfolding refused
    fetched (err e) = err (transport e)
    fetched (ok r) = read_body r.status r.body

    -- A reply that gives a snapshot.
    pub record Delivers (reply : Result Response Text) (s : S) : Type 0 where
      pub response : Response
      pub content : Text
      pub arrived : reply ≡ ok response
      pub success : (leb 200 response.status ≡ true) × (ltb response.status 300 ≡ true)
      pub complete : response.body ≡ ok content
      pub parsed : parse content ≡ ok s

    refused-none_iff :
        (status : ℕ) (body : Text)
        → (refused status body ≡ none) ↔ ((leb 200 status ≡ true) × (ltb status 300 ≡ true))
    unfolding refused
    refused-none_iff status body = ground arith

    read_snapshot-ok :
        (o : Option Error) (c : Text) (s : S)
        → read_snapshot o c ≡ ok s
        → (o ≡ none) × (parse c ≡ ok s)
    read_snapshot-ok (some e) c s h = cc
    read_snapshot-ok none c s h = elim (Result-cases (parse c)) [
      | inl (s', e) ↦ ground (arith, e)
      | inr (m, e) ↦ ground (arith, e)
    ]

    read_body-ok :
        (status : ℕ) (body : Result Text Text) (s : S)
        → read_body status body ≡ ok s
        → (c : Text) × (body ≡ ok c) × (refused status c ≡ none) × (parse c ≡ ok s)
    read_body-ok status (err e) s h = cc
    read_body-ok status (ok c) s h =
        let (kept, read) = read_snapshot-ok (refused status c) c s h in (c, refl, kept, read)

    -- A download gives a snapshot exactly if a reply came whole, with a status from 200 to 299 and
    -- a body that reads as that snapshot.
    pub fetched_iff :
        (reply : Result Response Text) (s : S) → (fetched reply ≡ ok s) ↔ Delivers reply s
    unfolding fetched
    fetched_iff (err e) s = (λ h. cc, λ d. cc (d.arrived))
    fetched_iff (ok r) s = (
      λ h.
          let (c, came, kept, read) = read_body-ok r.status r.body s h in
          record {
            response = r;
            content = c;
            arrived = refl;
            success = (refused-none_iff r.status c).0 kept;
            complete = came;
            parsed = read;
          },
      λ d.
          let same : d.response ≡ r = cc (d.arrived) in
          let came : r.body ≡ ok d.content = rw (← same) d.complete in
          let kept : refused r.status d.content ≡ none =
            (refused-none_iff r.status d.content).1 (rw (← same) d.success) in
          rw (came, kept) (rw (d.parsed, read_snapshot) refl),
    )
