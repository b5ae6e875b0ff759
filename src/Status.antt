-- ===== src/Status.antt =====
-- src/cert_publisher/status.py: the condition and the merge patch that report an outcome, the copy
-- in memory that follows the patch, and the Event for a transition.
pub mod Conditions
pub mod Outcome
mod Examples
use cert_publisher.Prelude.{
  ℕ, String, Bool, true, false, not, ◌&&◌, ◌||◌, Option, none, some, List, [], ◌∷◌, ◌++◌, ◌==◌,
  if◌then◌else◌,
}
use cert_publisher.Prelude.Text.{truncate}
use cert_publisher.Resources.{Condition, Status, Publication, Setting, unset, set_to, StatusPatch}
use cert_publisher.Effects.{
  Exception, ok, World, State, Action, pure, raise, get_publication, try_except, ◌>>=◌, ◌>>◌,
}
use cert_publisher.Utils.{now_rfc3339}
use cert_publisher.Kube.{patch_publication_status, record_event}

abbrev pub pending : String
pending = "Pending"

abbrev pub published : String
published = "Published"

abbrev pub error : String
error = "Error"

abbrev pub ready_type : String
ready_type = "Ready"

abbrev pub reason_published : String
reason_published = "Published"

abbrev pub reason_awaiting_issuance : String
reason_awaiting_issuance = "AwaitingIssuance"

abbrev pub reason_signing_pending : String
reason_signing_pending = "SigningRequestPending"

abbrev pub reason_signing_failed : String
reason_signing_failed = "SigningRequestFailed"

abbrev pub reason_signing_not_signed : String
reason_signing_not_signed = "SigningRequestNotSigned"

abbrev pub reason_signing_cooldown : String
reason_signing_cooldown = "SigningCooldown"

abbrev pub reason_unusable_certificate : String
reason_unusable_certificate = "UnusableCertificate"

abbrev pub reason_misconfigured : String
reason_misconfigured = "Misconfigured"

abbrev pub reason_reconcile_error : String
reason_reconcile_error = "ReconcileError"

-- `_DEFAULT_REASONS.get(phase, phase)`
default_reason : String → String
default_reason phase =
    if phase == published
    then reason_published
    else if phase == pending
    then reason_awaiting_issuance
    else if phase == error
    then reason_reconcile_error
    else phase

-- `reason or default`
pub reason_or_default : Option String → String → String
unfolding default_reason
reason_or_default none phase = default_reason phase
reason_or_default (some r) phase = if r == "" then default_reason phase else r

abbrev pub max_message : ℕ
max_message = 32768

-- Whether a condition of type `Ready` and status `True` is among them.
pub any_ready : List Condition → Bool
any_ready [] = false
any_ready (c ∷ cs) = (c.type == ready_type && c.status == "True") || any_ready cs

pub is_ready : Publication → Bool
unfolding any_ready
is_ready p = any_ready p.status.conditions

-- The first condition of type `Ready`.
pub find_ready : List Condition → Option Condition
find_ready [] = none
find_ready (c ∷ cs) = if c.type == ready_type then some c else find_ready cs

-- Ready follows the phase unless the caller says otherwise.
pub decide_ready : Option Bool → String → Bool
decide_ready none phase = phase == published
decide_ready (some b) phase = b

abbrev pub state_text : Bool → String
state_text true = "True"
state_text false = "False"

-- The stored transition time, if the stored state is the new one.
pub kept_transition : Option Condition → String → Option String
kept_transition none state = none
kept_transition (some c) state =
    if c.status == state
    then (if c.last_transition_time == "" then none else some c.last_transition_time)
    else none

-- The conditions that the operator does not own, in their order.
pub others : List Condition → List Condition
others [] = []
others (c ∷ cs) = let rest = others cs in if c.type == ready_type then rest else c ∷ rest

pub merge_conditions : Publication → Condition → List Condition
unfolding others
merge_conditions p c = others p.status.conditions ++ c ∷ []

-- The keyword arguments of `set_status`.
pub record Options : Type 0 where
  pub reason : Option String
  pub published_fingerprint : Option String
  pub mark_published : Bool
  pub pending_request : Setting
  pub mark_signing : Bool
  pub next_retry : Option String
  pub ready : Option Bool
  pub strict : Bool

abbrev pub defaults : Options
defaults = record {
  reason = none;
  published_fingerprint = none;
  mark_published = false;
  pending_request = unset;
  mark_signing = false;
  next_retry = none;
  ready = none;
  strict = false;
}

-- A key that the patch leaves out keeps its value.
abbrev pub kept_or : Option String → Option String → Option String
kept_or none old = old
kept_or (some v) old = some v

abbrev pub applied : Setting → Option String → Option String
applied unset old = old
applied (set_to v) old = v

-- The merge patch: a null drops the key, an absent key keeps its value.
unfoldable pub merge : StatusPatch → Status → Status
merge p s = record {
  phase = some p.phase;
  message = some p.message;
  reason = some p.reason;
  last_reconcile_time = some p.last_reconcile_time;
  observed_generation = p.observed_generation;
  conditions = p.conditions;
  published_fingerprint = kept_or p.published_fingerprint s.published_fingerprint;
  last_published_time = kept_or p.last_published_time s.last_published_time;
  pending_request_name = applied p.pending_request_name s.pending_request_name;
  last_signing_time = kept_or p.last_signing_time s.last_signing_time;
  next_retry_time = p.next_retry_time;
}

set_memory : StatusPatch → Action (Unit {0})
unfolding merge
set_memory patch s = (
  ok tt,
  record s { publication = record s.publication { status = merge patch s.publication.status } },
)

abbrev same_text : Option String → String → Bool
same_text none t = false
same_text (some s) t = s == t

-- `(previous.get("phase"), previous.get("reason")) == (phase, reason)`
pub same_outcome : Status → String → String → Bool
same_outcome previous phase reason =
    same_text previous.phase phase && same_text previous.reason reason

module _ ⦃w : World⦄ where
  -- A value, or else a new stamp.
  stamp_unless : Option String → Action String
  stamp_unless none = now_rfc3339
  stamp_unless (some t) = pure t

  stamp_if : Bool → Action (Option String)
  stamp_if true = do t ← now_rfc3339; pure (some t)
  stamp_if false = pure none

  pub ready_condition : Publication → String → String → String → Option Bool → Action Condition
  unfolding find_ready decide_ready kept_transition stamp_unless
  ready_condition p phase reason message ready = do
    let state = state_text (decide_ready ready phase)
    transitioned ← stamp_unless (kept_transition (find_ready p.status.conditions) state)
    pure (record {
      type = ready_type;
      status = state;
      reason = reason;
      message = truncate max_message message;
      last_transition_time = transitioned;
      observed_generation = p.generation;
    })

  pub build_patch : Publication → String → String → String → Options → Action StatusPatch
  unfolding stamp_if
  build_patch p phase reason message o = do
    condition ← ready_condition p phase reason message o.ready
    reconciled ← now_rfc3339
    published_at ← stamp_if o.mark_published
    signing_at ← stamp_if o.mark_signing
    pure (record {
      phase = phase;
      message = message;
      reason = reason;
      last_reconcile_time = reconciled;
      observed_generation = p.generation;
      conditions = merge_conditions p condition;
      published_fingerprint = o.published_fingerprint;
      last_published_time = published_at;
      pending_request_name = o.pending_request;
      last_signing_time = signing_at;
      next_retry_time = o.next_retry;
    })

  pub record_transition : Status → String → String → String → Action (Unit {0})
  record_transition previous phase reason message =
      if same_outcome previous phase reason then pure tt else do
        p ← get_publication
        record_event p (if not (phase == error) then "Normal" else "Warning") reason message

  -- What follows the patch: the copy in memory, and the Event.
  after_patch : Status → StatusPatch → Action (Unit {0})
  unfolding set_memory record_transition
  after_patch previous patch = do
    set_memory patch
    record_transition previous patch.phase patch.reason patch.message

  -- `try: patch; except Exception: if strict: raise; return`. True if the patch was stored.
  try_patch : Bool → String → String → StatusPatch → Action Bool
  try_patch strict namespace name patch =
      try_except (do patch_publication_status namespace name patch; pure true)
        (λ e. if strict then raise e else pure false)

  pub set_status : String → String → Options → Action (Unit {0})
  unfolding build_patch try_patch after_patch
  set_status phase message o = do
    p ← get_publication
    patch ← build_patch p phase (reason_or_default o.reason phase) (truncate max_message message) o
    stored ← try_patch o.strict p.namespace p.name patch
    if stored then after_patch p.status patch else pure tt
