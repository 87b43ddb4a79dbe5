-- ===== src/Models/Enums.antt =====
-- The controlled vocabularies of app/models/enums.py, with the `.value` texts and the tables keyed
-- by them that the services use.
use matata_backend.Common.{String, Bool, true, false}

pub data DamageSeverity : Type 0 where
  none minimal partial destroyed : DamageSeverity

pub data CrisisType : Type 0 where
  flood earthquake conflict wildfire fire other : CrisisType

pub data InfrastructureType : Type 0 where
  residential commercial government utilities transport community : InfrastructureType

pub data ReportDamageSeverity : Type 0 where
  minimal partial destroyed : ReportDamageSeverity

pub data MedicalHelpNeeded : Type 0 where
  urgent not_urgent none : MedicalHelpNeeded

pub data PhotoStatus : Type 0 where
  pending processing accepted rejected insufficient_quality ai_processing_failed : PhotoStatus

pub data NotificationStatus : Type 0 where
  pending sent failed : NotificationStatus

pub data ReportStatus : Type 0 where
  pending verified rejected duplicate pending_merge_review : ReportStatus

pub data ReviewPriority : Type 0 where
  critical high normal low : ReviewPriority

-- `ReportStatus(...).value`
abbrev pub status_value : ReportStatus → String
status_value ReportStatus.pending = "pending"
status_value ReportStatus.verified = "verified"
status_value ReportStatus.rejected = "rejected"
status_value ReportStatus.duplicate = "duplicate"
status_value ReportStatus.pending_merge_review = "pending_merge_review"

-- `ReportDamageSeverity(...).value`
abbrev pub severity_value : ReportDamageSeverity → String
severity_value ReportDamageSeverity.minimal = "minimal"
severity_value ReportDamageSeverity.partial = "partial"
severity_value ReportDamageSeverity.destroyed = "destroyed"

-- `==` on two severities.
abbrev pub severity_eq : ReportDamageSeverity → ReportDamageSeverity → Bool
severity_eq ReportDamageSeverity.minimal ReportDamageSeverity.minimal = true
severity_eq ReportDamageSeverity.partial ReportDamageSeverity.partial = true
severity_eq ReportDamageSeverity.destroyed ReportDamageSeverity.destroyed = true
severity_eq _ _ = false

-- `==` on two statuses.
abbrev pub status_eq : ReportStatus → ReportStatus → Bool
status_eq ReportStatus.pending ReportStatus.pending = true
status_eq ReportStatus.verified ReportStatus.verified = true
status_eq ReportStatus.rejected ReportStatus.rejected = true
status_eq ReportStatus.duplicate ReportStatus.duplicate = true
status_eq ReportStatus.pending_merge_review ReportStatus.pending_merge_review = true
status_eq _ _ = false

-- `==` on two priorities.
abbrev pub priority_eq : ReviewPriority → ReviewPriority → Bool
priority_eq ReviewPriority.critical ReviewPriority.critical = true
priority_eq ReviewPriority.high ReviewPriority.high = true
priority_eq ReviewPriority.normal ReviewPriority.normal = true
priority_eq ReviewPriority.low ReviewPriority.low = true
priority_eq _ _ = false

-- `CrisisType(...).value` and `InfrastructureType(...).value`
abbrev pub crisis_value : CrisisType → String
crisis_value CrisisType.flood = "flood"
crisis_value CrisisType.earthquake = "earthquake"
crisis_value CrisisType.conflict = "conflict"
crisis_value CrisisType.wildfire = "wildfire"
crisis_value CrisisType.fire = "fire"
crisis_value CrisisType.other = "other"

abbrev pub infrastructure_value : InfrastructureType → String
infrastructure_value InfrastructureType.residential = "residential"
infrastructure_value InfrastructureType.commercial = "commercial"
infrastructure_value InfrastructureType.government = "government"
infrastructure_value InfrastructureType.utilities = "utilities"
infrastructure_value InfrastructureType.transport = "transport"
infrastructure_value InfrastructureType.community = "community"
