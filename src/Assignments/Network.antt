-- ===== src/Assignments/Network.antt =====
-- `NetworkState::resolve` (crates/assignments/src/common.rs): the assignments that a consumer
-- reads. The published entries are of any types: `N` is `NetworkAssignment`, `V`
-- `NetworkAssignmentV2` and `S` `SchemaBundle`.
use sqd_network.Base.{
  ◌≡◌, refl, Option, none, some, Outcome, ok, err, panic, Option-cases, inl, inr,
}

pub data AssignmentType : Type 0 where
  legacy_type split_type : AssignmentType

pub record NetworkState (N V S : Type 0) : Type 0 where
  pub assignment : Option N
  pub worker_assignment : Option V
  pub portal_assignment : Option V
  pub schema_bundle : Option S
  pub assignment_type : AssignmentType

pub data ResolvedAssignments (N V S : Type 0) : Type 0 where
  legacy : N → ResolvedAssignments N V S
  split : V → V → S → ResolvedAssignments N V S

-- The field that `InvalidNetworkState` names.
pub data Missing : Type 0 where
  no_assignment no_worker_assignment no_portal_assignment no_schema_bundle : Missing

-- `InvalidNetworkState`.
pub record InvalidNetworkState : Type 0 where
  pub assignment_type : AssignmentType
  pub missing : Missing

unfoldable pub unwrap_or : Option AssignmentType → AssignmentType → AssignmentType
unwrap_or none default_type = default_type
unwrap_or (some t) default_type = t

module _ {N V S : Type 0} where
  -- The match on the type.
  unfoldable pub resolve_as :
      NetworkState N V S → AssignmentType → Outcome InvalidNetworkState (ResolvedAssignments N V S)
  resolve_as s AssignmentType.legacy_type = elim s.assignment [
    | some a ↦ ok (legacy a)
    | none ↦ err (record { assignment_type = AssignmentType.legacy_type; missing = no_assignment })
  ]
  resolve_as s AssignmentType.split_type = elim s.worker_assignment [
    | none ↦
        err (record { assignment_type = AssignmentType.split_type; missing = no_worker_assignment })
    | some worker ↦ elim s.portal_assignment [
      | none ↦
          err
            (record { assignment_type = AssignmentType.split_type; missing = no_portal_assignment })
      | some portal ↦ elim s.schema_bundle [
        | none ↦
            err (record { assignment_type = AssignmentType.split_type; missing = no_schema_bundle })
        | some bundle ↦ ok (split worker portal bundle)
      ]
    ]
  ]

  unfoldable pub resolve :
      NetworkState N V S
      → Option AssignmentType
      → Outcome InvalidNetworkState (ResolvedAssignments N V S)
  unfolding resolve_as unwrap_or
  resolve s override = resolve_as s (unwrap_or override s.assignment_type)

  -- The field that an error names is not published, and belongs to the type that it names.
  abbrev pub IsMissing : NetworkState N V S → AssignmentType → Missing → Type 0
  IsMissing s AssignmentType.legacy_type no_assignment = s.assignment ≡ none
  IsMissing s AssignmentType.split_type no_worker_assignment = s.worker_assignment ≡ none
  IsMissing s AssignmentType.split_type no_portal_assignment = s.portal_assignment ≡ none
  IsMissing s AssignmentType.split_type no_schema_bundle = s.schema_bundle ≡ none
  IsMissing s _ _ = ⊥

  -- What an answer of `resolve` means, for the type that was asked for.
  abbrev pub Resolves :
      NetworkState N V S
      → AssignmentType
      → Outcome InvalidNetworkState (ResolvedAssignments N V S)
      → Type 0
  Resolves s t (ok (legacy a)) = (t ≡ AssignmentType.legacy_type) × (s.assignment ≡ some a)
  Resolves s t (ok (split worker portal bundle)) =
      (t ≡ AssignmentType.split_type)
      × (s.worker_assignment ≡ some worker)
      × (s.portal_assignment ≡ some portal)
      × (s.schema_bundle ≡ some bundle)
  Resolves s t (err e) = (e.assignment_type ≡ t) × IsMissing s t e.missing
  Resolves s t panic = ⊥

  resolve_as-Resolves :
      (s : NetworkState N V S) (t : AssignmentType) → Resolves s t (resolve_as s t)
  unfolding resolve_as
  resolve_as-Resolves s AssignmentType.legacy_type = elim (Option-cases s.assignment) [
    | inl n ↦ rw (n, resolve_as) (refl, refl)
    | inr (a, e) ↦ rw (e, resolve_as) (refl, refl)
  ]
  resolve_as-Resolves s AssignmentType.split_type = elim (Option-cases s.worker_assignment) [
    | inl n ↦ rw (n, resolve_as) (refl, refl)
    | inr (w, e) ↦ elim (Option-cases s.portal_assignment) [
      | inl n ↦ rw (e, resolve_as, n) (refl, refl)
      | inr (p, f) ↦ elim (Option-cases s.schema_bundle) [
        | inl n ↦ rw (e, resolve_as, f, n) (refl, refl)
        | inr (b, g) ↦ rw (e, resolve_as, f, g) (refl, refl, refl, refl)
      ]
    ]
  ]

  -- `resolve` answers for the type that overrides the state's own, or else for that one: with the
  -- entries that are published for it, all of them, or with an error that names the type and a
  -- field that it needs and that is not published.
  resolve-Resolves :
      (s : NetworkState N V S) (override : Option AssignmentType)
      → Resolves s (unwrap_or override s.assignment_type) (resolve s override)
  unfolding resolve
  resolve-Resolves s override = resolve_as-Resolves s (unwrap_or override s.assignment_type)
