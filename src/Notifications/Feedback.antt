-- ===== src/Notifications/Feedback.antt =====
-- apps/notifications/src/app/feedback/ses-feedback-parser.ts (the parsed event) and
-- apps/notifications/src/app/feedback/ses-feedback-policy.ts (what an event means).
-- Identifiers and addresses, which are only compared whole, are numbers; times are milliseconds.
pub mod Ranks
pub mod Codes
use backend.Prelude.{
  ℕ, ◌≡◌, Bool, true, false, not, ◌&&◌, ◌||◌, List, [], ◌∷◌, map, Option, none, some, if◌then◌else◌,
  any, find_many,
}
use backend.Text.{
  Text, codes, text_eq, is_alphanumeric, to_lower, to_upper, slice_to, join_underscore,
}

pub data FeedbackEvent : Type 0 where
  send delivery : FeedbackEvent
  delivery_delay : (delay_type : Text) → FeedbackEvent
  bounce : (bounce_type bounce_sub_type : Text) (feedback_id : ℕ) → FeedbackEvent
  complaint : (sub_type feedback_type : Option Text) (feedback_id : ℕ) → FeedbackEvent
  reject : (reason : Text) → FeedbackEvent
  rendering_failure : (template_name : Text) → FeedbackEvent

pub record SesFeedback : Type 0 where
  pub sns_message_id : ℕ
  pub ses_message_id : ℕ
  pub recipient : ℕ
  pub request_id : Option ℕ
  pub mail_timestamp : ℕ
  pub provider_timestamp : ℕ
  pub event : FeedbackEvent

pub data EmailDeliveryStatus : Type 0 where
  pending accepted delivered delayed bounced complained rejected : EmailDeliveryStatus
  failed submission_unknown suppressed : EmailDeliveryStatus

pub data EmailDestinationStatus : Type 0 where
  active temporary_failure suppressed recovery_pending : EmailDestinationStatus

abbrev provider_suppression_subtypes : List Text
provider_suppression_subtypes =
    codes "emailvalidationsuppressed"
    ∷ codes "suppressed"
    ∷ codes "onaccountsuppressionlist"
    ∷ codes "ontenantsuppressionlist"
    ∷ []

lower_case : Text → Text
unfolding to_lower
lower_case = map to_lower

-- `PROVIDER_SUPPRESSION_SUBTYPES.has(subtype.toLowerCase())`
is_suppression_subtype : Text → Bool
unfolding lower_case text_eq
is_suppression_subtype t = any (text_eq (lower_case t)) provider_suppression_subtypes

unfoldable pub is_permanent : Text → Bool
unfolding lower_case text_eq
is_permanent t = text_eq (lower_case t) (codes "permanent")

unfoldable pub is_transient : Text → Bool
unfolding lower_case text_eq
is_transient t = text_eq (lower_case t) (codes "transient")

-- An empty subtype is falsy, and is no member of the set either.
unfoldable pub is_provider_suppression : FeedbackEvent → Bool
unfolding is_suppression_subtype
is_provider_suppression (bounce kind sub_type _) = is_suppression_subtype sub_type
is_provider_suppression (complaint (some sub_type) _ _) = is_suppression_subtype sub_type
is_provider_suppression _ = false

unfoldable pub is_terminal_mailbox_event : FeedbackEvent → Bool
is_terminal_mailbox_event (complaint _ _ _) = true
is_terminal_mailbox_event (bounce kind sub_type id) =
    is_permanent kind || is_provider_suppression (bounce kind sub_type id)
is_terminal_mailbox_event _ = false

-- The `switch` of `feedbackPrecedence`.
event_precedence : FeedbackEvent → ℕ
event_precedence (complaint _ _ _) = 60
event_precedence (bounce kind _ _) = if is_permanent kind then 50 else 45
event_precedence (reject _) = 40
event_precedence (rendering_failure _) = 40
event_precedence delivery = 30
event_precedence (delivery_delay _) = 20
event_precedence send = 10

unfoldable pub feedback_precedence : FeedbackEvent → ℕ
unfolding event_precedence
feedback_precedence e = if is_provider_suppression e then 70 else event_precedence e

unfoldable pub delivery_status : FeedbackEvent → EmailDeliveryStatus
delivery_status send = accepted
delivery_status delivery = delivered
delivery_status (delivery_delay _) = delayed
delivery_status (bounce kind sub_type id) =
    if is_provider_suppression (bounce kind sub_type id)
    then EmailDeliveryStatus.suppressed
    else bounced
delivery_status (complaint sub_type kind id) =
    if is_provider_suppression (complaint sub_type kind id)
    then EmailDeliveryStatus.suppressed
    else complained
delivery_status (reject _) = rejected
delivery_status (rendering_failure _) = failed

unfoldable pub destination_status : FeedbackEvent → Option EmailDestinationStatus
destination_status delivery = some active
destination_status (delivery_delay _) = some temporary_failure
destination_status (bounce kind _ _) = if is_transient kind then some temporary_failure else none
destination_status _ = none

-- `part.replace(/[^A-Za-z0-9]+/g, '_')`: a run of other characters becomes one underscore; the flag
-- says that the run has begun.
squeeze : Bool → Text → Text
squeeze in_run [] = []
squeeze in_run (c ∷ s) =
    let word = c ∷ squeeze false s in
    let run_on = squeeze true s in
    if is_alphanumeric c then word else (if in_run then run_on else b'_' ∷ run_on)

-- `replace` and `toUpperCase` on one part.
safe_part : Text → Text
unfolding squeeze to_upper
safe_part s = map to_upper (squeeze false s)

-- `filter((part) => Boolean(part))`: undefined and empty parts go.
present : List (Option Text) → List Text
present [] = []
present (none ∷ parts) = present parts
present (some [] ∷ parts) = present parts
present (some (c ∷ s) ∷ parts) = (c ∷ s) ∷ present parts

unfoldable pub safe_code : List (Option Text) → Text
unfolding safe_part present slice_to join_underscore
safe_code parts = slice_to 100 (join_underscore (map safe_part (present parts)))

unfoldable pub delivery_failure_code : FeedbackEvent → Option Text
delivery_failure_code (delivery_delay kind) =
    some (safe_code (some (codes "DELIVERY_DELAY") ∷ some kind ∷ []))
delivery_failure_code (bounce kind sub_type _) =
    some (safe_code (some (codes "BOUNCE") ∷ some kind ∷ some sub_type ∷ []))
delivery_failure_code (complaint sub_type kind _) =
    some (safe_code (some (codes "COMPLAINT") ∷ sub_type ∷ kind ∷ []))
delivery_failure_code (reject _) = some (codes "SES_REJECTED")
delivery_failure_code (rendering_failure _) = some (codes "RENDERING_FAILURE")
delivery_failure_code _ = none

-- `text || null`
or_null : Text → Option Text
or_null [] = none
or_null (c ∷ s) = some (c ∷ s)

unfoldable pub event_subtype : FeedbackEvent → Option Text
unfolding or_null
event_subtype (delivery_delay kind) = some (safe_code (some kind ∷ []))
event_subtype (bounce kind sub_type _) = some (safe_code (some kind ∷ some sub_type ∷ []))
event_subtype (complaint sub_type kind _) = or_null (safe_code (sub_type ∷ kind ∷ []))
event_subtype (reject _) = some (codes "SES_REJECTED")
event_subtype (rendering_failure _) = some (codes "RENDERING_FAILURE")
event_subtype _ = none

unfoldable pub feedback_id : FeedbackEvent → Option ℕ
feedback_id (bounce _ _ id) = some id
feedback_id (complaint _ _ id) = some id
feedback_id _ = none
