-- ===== src/Daemon/Audit.antt =====
-- The policy types and the class AuditFormatter of sdk/security/boundary-daemon.ts. `date_time` stands
-- for `new Date(timestamp).getTime()`, as it is printed, and `stringify` for JSON.stringify.
use ilr_module.Prelude.{ℕ, List, [], ◌∷◌, ◌++◌, Option, none, some}
use ilr_module.Prelude.Text.{Text, codes}
use ilr_module.Siem.Cef.{decimal, join_by}

pub data PolicyDecision : Type 0 where
  allow deny monitor rate_limit : PolicyDecision

-- `context` is kept as its JSON text.
pub record PolicyContext : Type 0 where
  pub action : Text
  pub context : Text
  pub severity : Option ℕ
  pub source : Option Text
  pub destination : Option Text
  pub protocol : Option Text
  pub port : Option ℕ

pub record PolicyResult : Type 0 where
  pub decision : PolicyDecision
  pub rule_id : Option Text
  pub reason : Option Text

pub record AuditEvent : Type 0 where
  pub timestamp : Text
  pub event_type : Text
  pub decision : PolicyDecision
  pub context : PolicyContext
  pub rule_id : Option Text
  pub source : Option Text

pub data AuditFormat : Type 0 where
  cef leef json : AuditFormat

unfoldable pub decision_text : PolicyDecision → Text
decision_text allow = codes "ALLOW"
decision_text deny = codes "DENY"
decision_text monitor = codes "MONITOR"
decision_text rate_limit = codes "RATE_LIMIT"

unfoldable pub get_severity : PolicyDecision → ℕ
get_severity deny = 8
get_severity rate_limit = 5
get_severity monitor = 3
get_severity allow = 1

-- `text ? … : ''`
unfoldable pub part_or_empty : Option Text → (Text → Text) → Text
part_or_empty none f = []
part_or_empty (some []) f = []
part_or_empty (some (c ∷ t)) f = f (c ∷ t)

-- `.filter(Boolean)` on strings
unfoldable pub filter_nonempty : List Text → List Text
filter_nonempty [] = []
filter_nonempty ([] ∷ ts) = filter_nonempty ts
filter_nonempty ((c ∷ t) ∷ ts) = (c ∷ t) ∷ filter_nonempty ts

module _ (date_time : Text → Text) (stringify : AuditEvent → Text) where
  unfoldable pub to_cef : AuditEvent → Text
  unfolding join_by filter_nonempty part_or_empty decision_text get_severity decimal
  to_cef event =
      codes "CEF:0|NatLangChain|BoundaryDaemon|1.0|"
      ++ (event.event_type
          ++ (codes "|Policy Decision|"
              ++ (decimal (get_severity event.decision)
                  ++ (codes "|"
                      ++ join_by b' ' (
                          filter_nonempty (
                            (codes "rt=" ++ date_time event.timestamp)
                            ∷ (codes "act=" ++ event.context.action)
                            ∷ (codes "outcome=" ++ decision_text event.decision)
                            ∷ part_or_empty event.rule_id (λ t. codes "cs1=" ++ t)
                            ∷ part_or_empty event.rule_id (λ t. codes "cs1Label=RuleID")
                            ∷ part_or_empty event.source (λ t. codes "src=" ++ t)
                            ∷ []))))))

  unfoldable pub to_leef : AuditEvent → Text
  unfolding join_by filter_nonempty part_or_empty decision_text
  to_leef event =
      codes "LEEF:2.0|NatLangChain|BoundaryDaemon|1.0|"
      ++ (event.event_type
          ++ (codes "|"
              ++ join_by 9 (
                  filter_nonempty (
                    (codes "devTime=" ++ event.timestamp)
                    ∷ (codes "cat=" ++ event.event_type)
                    ∷ (codes "action=" ++ event.context.action)
                    ∷ (codes "policy=" ++ decision_text event.decision)
                    ∷ part_or_empty event.rule_id (λ t. codes "ruleId=" ++ t)
                    ∷ part_or_empty event.source (λ t. codes "src=" ++ t)
                    ∷ []))))

  unfoldable pub format_event : AuditFormat → AuditEvent → Text
  unfolding to_cef to_leef
  format_event cef event = to_cef event
  format_event leef event = to_leef event
  format_event json event = stringify event
