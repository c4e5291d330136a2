-- ===== src/Notifications/Destination/Recovery/Replay.antt =====
-- A recovery command may be sent again.
use mathlib.Core.List.{Memᴰ}
use backend.Prelude.{
  ℕ, ◌≡◌, refl, sym, ap, ◌∙◌, ◌⊎◌, inl, inr, Bool, true, false, List, [], ◌∷◌, ◌++◌, map, Option,
  none, some, ◌==◌, arith, any, any_intro, all, update_many, find_many, find_many-append, ==_iff,
}
use backend.Text.{Text}
use backend.Text.Equality.{text_eq_refl}
use backend.Notifications.Feedback.{EmailDestinationStatus, active}
use backend.Notifications.Destination.{RecipientHash, EmailDestination, is_alias}
use backend.Notifications.Destination.Suppress.{max_suppression_revision}
use backend.Notifications.Destination.Recovery.Evidence.{
  RecoveryEvidence, EmailRecoveryAction, is_valid_evidence,
}
use backend.Notifications.Destination.Recovery.{
  EmailRecoveryAudit, RecoveryTables, done, action_eq, optional_text_eq, destination_update,
  max_audit_revision, is_replayed, is_exact_replay, is_expected_state, is_read_row, audit_of,
  is_empty, has_operation, transition,
}
use backend.Notifications.Destination.Recovery.Moves.{
  aliases, IsNewOperation, status_eq_refl, update-is_alias, transition-result, transition-expects,
}

optional_text_eq_refl : (s : Option Text) → optional_text_eq s s ≡ true
unfolding optional_text_eq
optional_text_eq_refl none = refl
optional_text_eq_refl (some s) = text_eq_refl s

action_eq_refl : (a : EmailRecoveryAction) → action_eq a a ≡ true
unfolding action_eq
action_eq_refl a = ground arith

update-id :
    (next : EmailDestinationStatus) (d : EmailDestination) → (destination_update next d).id ≡ d.id
unfolding destination_update
update-id active d = refl
update-id _ d = refl

module _ (hashes : List RecipientHash) (next : EmailDestinationStatus)
    (p : EmailDestination → Bool) where
  -- The rows of the address, after an update of the table.
  abbrev updated : List EmailDestination → List EmailDestination
  updated ds = find_many (is_alias hashes) (update_many p (destination_update next) ds)

  updated-is_empty :
      (ds : List EmailDestination)
      → is_empty (updated ds) ≡ is_empty (find_many (is_alias hashes) ds)
  updated-is_empty [] = refl
  updated-is_empty (d ∷ ds) = ground (arith, update-is_alias hashes next d, updated-is_empty ds)

  updated-ids :
      (k : ℕ) (ds : List EmailDestination)
      → any (λ (d : EmailDestination). d.id == k) (updated ds)
        ≡ any (λ (d : EmailDestination). d.id == k) (find_many (is_alias hashes) ds)
  updated-ids k [] = refl
  updated-ids k (d ∷ ds) =
      ground (arith, update-is_alias hashes next d, update-id next d, updated-ids k ds)

module _ (previous next : EmailDestinationStatus) (action : EmailRecoveryAction)
    (evidence : RecoveryEvidence) where
  max_audit_revision-audits :
      (rows : List EmailDestination)
      → max_audit_revision (map (audit_of previous next action evidence) rows)
        ≡ max_suppression_revision rows
  unfolding max_audit_revision max_suppression_revision audit_of
  max_audit_revision-audits [] = refl
  max_audit_revision-audits (d ∷ rows) = omega (arith, max_audit_revision-audits rows)

  audits-has_operation :
      (rows : List EmailDestination)
      → find_many (has_operation evidence) (map (audit_of previous next action evidence) rows)
        ≡ map (audit_of previous next action evidence) rows
  unfolding audit_of
  audits-has_operation [] = refl
  audits-has_operation (d ∷ rows) =
      rw (text_eq_refl evidence.operation_id)
        (ap (◌∷◌ (audit_of previous next action evidence d)) (audits-has_operation rows))

  is_replayed-audit :
      (rows : List EmailDestination) (d : EmailDestination)
      → any (λ (r : EmailDestination). r.id == d.id) rows ≡ true
      → is_replayed rows previous next action evidence (audit_of previous next action evidence d)
        ≡ true
  unfolding is_replayed audit_of
  is_replayed-audit rows d here = rw (
    here,
    action_eq_refl action,
    text_eq_refl evidence.actor_id,
    text_eq_refl evidence.reason_code,
    text_eq_refl evidence.evidence_reference,
    optional_text_eq_refl evidence.provider_request_id,
    status_eq_refl previous,
    status_eq_refl next,
  )

  all_replayed :
      (rows ds : List EmailDestination)
      → ((d : EmailDestination)
          → Memᴰ d ds
          → any (λ (r : EmailDestination). r.id == d.id) rows ≡ true)
      → all
          (is_replayed rows previous next action evidence)
          (map (audit_of previous next action evidence) ds)
        ≡ true
  all_replayed rows [] here = refl
  all_replayed rows (d ∷ ds) here =
      rw (is_replayed-audit rows d (here d (Memᴰ.head refl)))
        (all_replayed rows ds (λ e m. here e (Memᴰ.tail m)))

transition-replayed :
    (is_uuid : Text → Bool) (hashes : List RecipientHash) (expected next : EmailDestinationStatus)
    (action : EmailRecoveryAction) (evidence : RecoveryEvidence) (t : RecoveryTables)
    → is_valid_evidence is_uuid evidence action ≡ true
    → is_empty (aliases hashes t) ≡ false
    → is_empty (find_many (has_operation evidence) t.audits) ≡ false
    → is_exact_replay
        (find_many (has_operation evidence) t.audits)
        (aliases hashes t)
        expected
        next
        action
        evidence
      ≡ true
    → transition is_uuid hashes expected next action evidence t ≡ done t
unfolding transition
transition-replayed is_uuid hashes expected next action evidence t v r o x = rw (v, r, o, x)

-- A step whose operation id was used before changes nothing if it succeeds.
pub transition-used :
    (is_uuid : Text → Bool) (hashes : List RecipientHash) (expected next : EmailDestinationStatus)
    (action : EmailRecoveryAction) (evidence : RecoveryEvidence) (t t' : RecoveryTables)
    (a : EmailRecoveryAudit) (more : List EmailRecoveryAudit)
    → find_many (has_operation evidence) t.audits ≡ a ∷ more
    → transition is_uuid hashes expected next action evidence t ≡ done t'
    → t ≡ t'
unfolding transition
transition-used is_uuid hashes expected next action evidence t t' a more used h = ground arith

map-is_empty {ℓ κ} :
    {A : Type ℓ} {B : Type κ} (f : A → B) (xs : List A) → is_empty (map f xs) ≡ is_empty xs
map-is_empty f [] = refl
map-is_empty f (x ∷ xs) = refl

List-cases {ℓ} :
    {A : Type ℓ} (xs : List A) → (xs ≡ []) ⊎ ((x : A) × (rest : List A) × (xs ≡ x ∷ rest))
List-cases [] = inl refl
List-cases (x ∷ xs) = inr (x, xs, refl)

replay-new :
    (is_uuid : Text → Bool) (hashes : List RecipientHash) (expected next : EmailDestinationStatus)
    (action : EmailRecoveryAction) (evidence : RecoveryEvidence) (t t' : RecoveryTables)
    → IsNewOperation evidence t
    → transition is_uuid hashes expected next action evidence t ≡ done t'
    → transition is_uuid hashes expected next action evidence t' ≡ done t'
unfolding transition is_exact_replay is_expected_state
replay-new is_uuid hashes expected next action evidence t t' new h =
    let state = transition-expects is_uuid hashes expected next action evidence t t' new h in
    let (moved, audited) =
      transition-result is_uuid hashes expected next action evidence t t' new h in
    let rows = aliases hashes t in
    let audits = map (audit_of expected next action evidence) rows in
    let met = is_read_row rows expected in
    let valid : is_valid_evidence is_uuid evidence action ≡ true = ground arith in
    let some_rows : is_empty rows ≡ false = ground arith in
    let rows' = updated hashes next met t.destinations in
    let found : find_many (has_operation evidence) t'.audits ≡ audits =
      ap (find_many (has_operation evidence)) audited
      ∙ find_many-append (has_operation evidence) t.audits audits
      ∙ ap (λ l. l ++ find_many (has_operation evidence) audits) new
      ∙ audits-has_operation expected next action evidence rows in
    let replayed = all_replayed expected next action evidence rows' rows (λ d m.
      updated-ids hashes next met d.id t.destinations
      ∙ any_intro _ d rows m ((==_iff d.id d.id).1 refl)) in
    let same_max = max_audit_revision-audits expected next action evidence rows in
    let same_rows : aliases hashes t' ≡ rows' = ap (find_many (is_alias hashes)) moved in
    transition-replayed is_uuid hashes expected next action evidence t' valid
      (ap is_empty same_rows ∙ updated-is_empty hashes next met t.destinations ∙ some_rows)
      (ap is_empty found ∙ map-is_empty (audit_of expected next action evidence) rows ∙ some_rows)
      (rw (found, same_rows) (ground (arith, replayed, same_max, state)))

-- A command that has succeeded and is sent again, with the same operation id, the same evidence and
-- the same step, succeeds again and changes nothing: no row, no audit.
pub transition-replay :
    (is_uuid : Text → Bool) (hashes : List RecipientHash) (expected next : EmailDestinationStatus)
    (action : EmailRecoveryAction) (evidence : RecoveryEvidence) (t t' : RecoveryTables)
    → transition is_uuid hashes expected next action evidence t ≡ done t'
    → transition is_uuid hashes expected next action evidence t' ≡ done t'
transition-replay is_uuid hashes expected next action evidence t t' h =
    elim (List-cases (find_many (has_operation evidence) t.audits)) [
      | inl new ↦ replay-new is_uuid hashes expected next action evidence t t' new h
      | inr (a, more, used) ↦
          let same =
            transition-used is_uuid hashes expected next action evidence t t' a more used h in
          ap (transition is_uuid hashes expected next action evidence) (sym same) ∙ h
    ]
