-- ===== src/Notifications/Destination/Recovery/Moves.antt =====
-- What a recovery step needs, and what it does to the rows of the address.
use mathlib.Core.List.{Memᴰ}
use mathlib.Core.Bool.{false≢true}
use backend.Prelude.{
  ◌≡◌, refl, sym, ap, ◌∙◌, Bool, true, false, not, List, [], ◌∷◌, ◌++◌, map, arith, any, any_intro,
  All, All-intro, update_many, All-update, find_many, mem-find_many,
}
use backend.Text.{Text}
use backend.Notifications.Feedback.{EmailDestinationStatus, active}
use backend.Notifications.Destination.{RecipientHash, EmailDestination, is_alias}
use backend.Notifications.Destination.Suppress.{max_suppression_revision}
use backend.Notifications.Destination.Recovery.Evidence.{RecoveryEvidence, EmailRecoveryAction}
use backend.Notifications.Destination.Recovery.{
  RecoveryTables, done, status_eq, destination_update, is_expected_state, is_read_row, audit_of,
  has_operation, move_rows, transition,
}

pub status_eq_refl : (s : EmailDestinationStatus) → status_eq s s ≡ true
unfolding status_eq
status_eq_refl s = ground arith

status_eq-eq : (s t : EmailDestinationStatus) → status_eq s t ≡ true → s ≡ t
unfolding status_eq
status_eq-eq s t h = ground arith

-- The rows of the address.
abbrev pub aliases : List RecipientHash → RecoveryTables → List EmailDestination
aliases hashes t = find_many (is_alias hashes) t.destinations

-- No audit has this operation id.
abbrev pub IsNewOperation : RecoveryEvidence → RecoveryTables → Type 0
IsNewOperation evidence t = find_many (has_operation evidence) t.audits ≡ []

-- A step of a new operation that succeeds: every row was in the expected status and the greatest
-- revision was the operator's.
pub transition-expects :
    (is_uuid : Text → Bool) (hashes : List RecipientHash) (expected next : EmailDestinationStatus)
    (action : EmailRecoveryAction) (evidence : RecoveryEvidence) (t t' : RecoveryTables)
    → IsNewOperation evidence t
    → transition is_uuid hashes expected next action evidence t ≡ done t'
    → is_expected_state (aliases hashes t) expected evidence ≡ true
unfolding transition move_rows
transition-expects is_uuid hashes expected next action evidence t t' new h = ground arith

pub transition-result :
    (is_uuid : Text → Bool) (hashes : List RecipientHash) (expected next : EmailDestinationStatus)
    (action : EmailRecoveryAction) (evidence : RecoveryEvidence) (t t' : RecoveryTables)
    → IsNewOperation evidence t
    → transition is_uuid hashes expected next action evidence t ≡ done t'
    → (t'.destinations
        ≡ update_many
            (is_read_row (aliases hashes t) expected)
            (destination_update next)
            t.destinations)
      × (t'.audits ≡ t.audits ++ map (audit_of expected next action evidence) (aliases hashes t))
unfolding transition move_rows
transition-result is_uuid hashes expected next action evidence t t' new h = ground arith

-- A row that was read in the expected status is met by the update.
read_row-met :
    (rows : List EmailDestination) (expected : EmailDestinationStatus) (d : EmailDestination)
    → Memᴰ d rows
    → status_eq d.status expected ≡ true
    → is_read_row rows expected d ≡ true
unfolding is_read_row
read_row-met rows expected d m s = any_intro _ d rows m (ground (arith, s))

none_unexpected :
    (rows : List EmailDestination) (expected : EmailDestinationStatus) (d : EmailDestination)
    → any (λ (r : EmailDestination). not (status_eq r.status expected)) rows ≡ false
    → Memᴰ d rows
    → status_eq d.status expected ≡ true
none_unexpected [] expected d h m = elim m [ ]
none_unexpected (r ∷ rows) expected d h (Memᴰ.head e) =
    ap (λ (x : EmailDestination). status_eq x.status expected) e ∙ ground arith
none_unexpected (r ∷ rows) expected d h (Memᴰ.tail m) =
    none_unexpected rows expected d (ground arith) m

expected_status :
    (rows : List EmailDestination) (expected : EmailDestinationStatus) (evidence : RecoveryEvidence)
    (d : EmailDestination)
    → is_expected_state rows expected evidence ≡ true
    → Memᴰ d rows
    → status_eq d.status expected ≡ true
unfolding is_expected_state
expected_status rows expected evidence d h m = none_unexpected rows expected d (ground arith) m

update-status :
    (next : EmailDestinationStatus) (d : EmailDestination)
    → (destination_update next d).status ≡ next
unfolding destination_update
update-status next d = ground arith

pub update-is_alias :
    (hashes : List RecipientHash) (next : EmailDestinationStatus) (d : EmailDestination)
    → is_alias hashes (destination_update next d) ≡ is_alias hashes d
unfolding destination_update is_alias
update-is_alias hashes active d = refl
update-is_alias hashes _ d = refl

-- A recovery step that succeeds with a new operation id. Before it every row of the address was in
-- the status that the step expects and the greatest revision of the rows was the one that the
-- operator named; after it every row of the address is in the step's next status; and one audit for
-- each row was added behind the audits that were there.
pub transition-moves :
    (is_uuid : Text → Bool) (hashes : List RecipientHash) (expected next : EmailDestinationStatus)
    (action : EmailRecoveryAction) (evidence : RecoveryEvidence) (t t' : RecoveryTables)
    → IsNewOperation evidence t
    → transition is_uuid hashes expected next action evidence t ≡ done t'
    → All (λ d. d.status ≡ expected) (aliases hashes t)
      × (max_suppression_revision (aliases hashes t) ≡ evidence.expected_suppression_revision)
      × All (λ d. is_alias hashes d ≡ true → d.status ≡ next) t'.destinations
      × (t'.audits ≡ t.audits ++ map (audit_of expected next action evidence) (aliases hashes t))
unfolding is_expected_state
transition-moves is_uuid hashes expected next action evidence t t' new h =
    let state = transition-expects is_uuid hashes expected next action evidence t t' new h in
    let (moved, audited) =
      transition-result is_uuid hashes expected next action evidence t t' new h in
    let rows = aliases hashes t in
    let was = expected_status rows expected evidence in
    (
      All-intro _ rows (λ d m. status_eq-eq d.status expected (was d state m)),
      ground arith,
      rw moved (
          All-update _ _ (destination_update next) t.destinations (λ d m p a. update-status next d)
            (λ d m p a. absurd (
              false≢true (
                sym p
                ∙ read_row-met rows expected d (mem-find_many (is_alias hashes) d _ m a)
                    (was d state (mem-find_many (is_alias hashes) d _ m a)))))),
      audited,
    )
