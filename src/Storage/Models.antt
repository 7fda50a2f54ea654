-- ===== src/Storage/Models.antt =====
-- crates/storage/src/models.rs: roles, scopes, the states of an experiment and the kinds of a counter,
-- with the words that the columns of the database hold for them.
use flagforge.Prelude.{◌≡◌, refl, ◌↔◌, Bool, true, false, Option, none, some, arith, if◌then◌else◌}
use flagforge.Text.{Text, text, text_eq, text_eq_iff}

pub data Role : Type 0 where
  owner admin member viewer : Role

unfoldable pub role_as_str : Role → Text
unfolding text
role_as_str owner = text "owner"
role_as_str admin = text "admin"
role_as_str member = text "member"
role_as_str viewer = text "viewer"

unfoldable pub parse_role : Text → Option Role
unfolding text
parse_role raw =
    if text_eq raw (text "owner")
    then some owner
    else if text_eq raw (text "admin")
    then some admin
    else if text_eq raw (text "member")
    then some member
    else if text_eq raw (text "viewer")
    then some viewer
    else none

unfoldable pub can_write : Role → Bool
can_write viewer = false
can_write _ = true

unfoldable pub can_administer : Role → Bool
can_administer owner = true
can_administer admin = true
can_administer _ = false

pub data KeyScope : Type 0 where
  server client : KeyScope

unfoldable pub scope_as_str : KeyScope → Text
unfolding text
scope_as_str server = text "server"
scope_as_str client = text "client"

unfoldable pub parse_scope : Text → Option KeyScope
unfolding text
parse_scope raw =
    if text_eq raw (text "server")
    then some server
    else if text_eq raw (text "client")
    then some client
    else none

pub data ExperimentState : Type 0 where
  draft running stopped : ExperimentState

unfoldable pub state_as_str : ExperimentState → Text
unfolding text
state_as_str draft = text "draft"
state_as_str running = text "running"
state_as_str stopped = text "stopped"

unfoldable pub parse_state : Text → Option ExperimentState
unfolding text
parse_state raw =
    if text_eq raw (text "draft")
    then some draft
    else if text_eq raw (text "running")
    then some running
    else if text_eq raw (text "stopped")
    then some stopped
    else none

pub data CounterKind : Type 0 where
  exposure conversion : CounterKind

unfoldable pub kind_as_str : CounterKind → Text
unfolding text
kind_as_str exposure = text "exposure"
kind_as_str conversion = text "conversion"

parse_role-role_as_str : (r : Role) → parse_role (role_as_str r) ≡ some r
unfolding parse_role role_as_str text_eq text
parse_role-role_as_str owner = refl
parse_role-role_as_str admin = refl
parse_role-role_as_str member = refl
parse_role-role_as_str viewer = refl

role_as_str-parse_role : (raw : Text) (r : Role) → parse_role raw ≡ some r → raw ≡ role_as_str r
unfolding parse_role role_as_str
role_as_str-parse_role raw r h = ground (
  arith,
  text_eq_iff raw (text "owner"),
  text_eq_iff raw (text "admin"),
  text_eq_iff raw (text "member"),
  text_eq_iff raw (text "viewer"),
)

pub parse_role_iff : (raw : Text) (r : Role) → (parse_role raw ≡ some r) ↔ (raw ≡ role_as_str r)
parse_role_iff raw r = (role_as_str-parse_role raw r, λ e. rw (e) (parse_role-role_as_str r))

parse_scope-scope_as_str : (s : KeyScope) → parse_scope (scope_as_str s) ≡ some s
unfolding parse_scope scope_as_str text_eq text
parse_scope-scope_as_str server = refl
parse_scope-scope_as_str client = refl

scope_as_str-parse_scope :
    (raw : Text) (s : KeyScope) → parse_scope raw ≡ some s → raw ≡ scope_as_str s
unfolding parse_scope scope_as_str
scope_as_str-parse_scope raw s h =
    ground (arith, text_eq_iff raw (text "server"), text_eq_iff raw (text "client"))

pub parse_scope_iff :
    (raw : Text) (s : KeyScope) → (parse_scope raw ≡ some s) ↔ (raw ≡ scope_as_str s)
parse_scope_iff raw s = (scope_as_str-parse_scope raw s, λ e. rw (e) (parse_scope-scope_as_str s))

parse_state-state_as_str : (s : ExperimentState) → parse_state (state_as_str s) ≡ some s
unfolding parse_state state_as_str text_eq text
parse_state-state_as_str draft = refl
parse_state-state_as_str running = refl
parse_state-state_as_str stopped = refl

state_as_str-parse_state :
    (raw : Text) (s : ExperimentState) → parse_state raw ≡ some s → raw ≡ state_as_str s
unfolding parse_state state_as_str
state_as_str-parse_state raw s h = ground (
  arith,
  text_eq_iff raw (text "draft"),
  text_eq_iff raw (text "running"),
  text_eq_iff raw (text "stopped"),
)

pub parse_state_iff :
    (raw : Text) (s : ExperimentState) → (parse_state raw ≡ some s) ↔ (raw ≡ state_as_str s)
parse_state_iff raw s = (state_as_str-parse_state raw s, λ e. rw (e) (parse_state-state_as_str s))

-- A word is parsed as a role, as a scope or as a state exactly if it is the word that is written
-- for it.
pub as_str_roundtrip :
    (raw : Text) (r : Role) (s : KeyScope) (e : ExperimentState)
    → ((parse_role raw ≡ some r) ↔ (raw ≡ role_as_str r))
      × ((parse_scope raw ≡ some s) ↔ (raw ≡ scope_as_str s))
      × ((parse_state raw ≡ some e) ↔ (raw ≡ state_as_str e))
as_str_roundtrip raw r s e = (parse_role_iff raw r, parse_scope_iff raw s, parse_state_iff raw e)
