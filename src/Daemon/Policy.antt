-- ===== src/Daemon/Policy.antt =====
-- The policy, rule, firewall and audit methods of the class BoundaryDaemon, and its stand-in
-- MockBoundaryDaemon, sdk/security/boundary-daemon.ts. What sendRequest comes to is a parameter: the
-- answer of the daemon, or an error.
use ilr_module.Prelude.{
  ℕ, ◌^◌, List, [], ◌∷◌, ◌++◌, map, Bool, true, false, ltb, if◌then◌else◌, Option, none, some,
  length,
}
use ilr_module.Prelude.Text.{Text, codes}
use ilr_module.Shamir.Commitment.{same_codes}
use ilr_module.Siem.Cef.{decimal}
use ilr_module.Daemon.Audit.{
  PolicyDecision, allow, deny, monitor, rate_limit, PolicyContext, PolicyResult, AuditEvent,
}
use ilr_module.Daemon.Connection.{FullConfig}

pub data Reply {ℓ} (A : Type ℓ) : Type ℓ where
  replies : A → Reply A
  fails : Reply A

pub data Effect : Type 0 where
  -- audit.log is sent; a failure is logged on the console.
  audit_sent : AuditEvent → Effect
  audit_local : AuditEvent → Effect
  emit_audit : AuditEvent → Effect

unfoldable pub evaluate_policy : Reply PolicyResult → PolicyResult
evaluate_policy (replies r) = r
evaluate_policy fails = record {
  decision = monitor;
  rule_id = none;
  reason = some (codes "Daemon unavailable - defaulting to monitor");
}

unfoldable pub batch_check_policy :
    List PolicyContext → Reply (List PolicyResult) → List PolicyResult
batch_check_policy contexts (replies rs) = rs
batch_check_policy contexts fails =
    map
      (λ c. record {
        decision = monitor;
        rule_id = none;
        reason = some (codes "Daemon unavailable");
      })
      contexts

unfoldable pub audit_log : AuditEvent → Reply (Unit {0}) → List Effect
audit_log event (replies t) = audit_sent event ∷ emit_audit event ∷ []
audit_log event fails = audit_sent event ∷ audit_local event ∷ emit_audit event ∷ []

unfoldable pub audit : FullConfig → AuditEvent → Reply (Unit {0}) → List Effect
unfolding audit_log
audit config event logged = if config.enable_audit then audit_log event logged else []

pub record Checked : Type 0 where
  pub decision : PolicyDecision
  pub effects : List Effect

unfoldable pub check_policy :
    FullConfig → Text → PolicyContext → Reply PolicyResult → Reply (Unit {0}) → Checked
unfolding evaluate_policy audit
check_policy config now context reply logged =
    let result = evaluate_policy reply in
    record {
      decision = result.decision;
      effects =
          if config.enable_audit
          then audit config
              (record {
                timestamp = now;
                event_type = codes "policy.check";
                decision = result.decision;
                context = context;
                rule_id = result.rule_id;
                source = none;
              })
              logged
          else [];
    }

unfoldable pub is_allow : PolicyDecision → Bool
is_allow allow = true
is_allow deny = false
is_allow monitor = false
is_allow rate_limit = false

-- `protocol: 'tcp' | 'udp' = 'tcp'`
unfoldable pub protocol_or_tcp : Option Text → Text
protocol_or_tcp none = codes "tcp"
protocol_or_tcp (some p) = p

unfoldable pub connection_context : Text → Text → Option Text → Option ℕ → PolicyContext
unfolding protocol_or_tcp
connection_context source destination protocol port = record {
  action = codes "connection.establish";
  context = codes "{}";
  severity = none;
  source = some source;
  destination = some destination;
  protocol = some (protocol_or_tcp protocol);
  port = port;
}

unfoldable pub protect_connection :
    FullConfig
    → Text
    → Text
    → Text
    → Option Text
    → Option ℕ
    → Reply PolicyResult
    → Reply (Unit {0})
    → Bool
unfolding check_policy connection_context is_allow
protect_connection config now source destination protocol port reply logged =
    is_allow
      (check_policy config now (connection_context source destination protocol port) reply
        logged).decision

-- The contexts of the methods for ILRM; `content` is their `context`, as JSON.
unfoldable pub dispute_context : Text → Text → PolicyContext
unfolding same_codes
dispute_context action content = record {
  action = codes "dispute." ++ action;
  context = content;
  severity = some (if same_codes action (codes "fraudProof") then 9 else 5);
  source = none;
  destination = none;
  protocol = none;
  port = none;
}

unfoldable pub bridge_context : Text → Text → PolicyContext
bridge_context operation content = record {
  action = codes "bridge." ++ operation;
  context = content;
  severity = some 7;
  source = none;
  destination = none;
  protocol = none;
  port = none;
}

unfoldable pub treasury_context : ℕ → Text → PolicyContext
treasury_context amount content = record {
  action = codes "treasury.withdrawal";
  context = content;
  severity = some (if ltb (10 ^ 18) amount then 9 else 7);
  source = none;
  destination = none;
  protocol = none;
  port = none;
}

-- The result of blockIP, if the daemon answers, and the audit of the block.
unfoldable pub block_ip :
    FullConfig → Text → Text → Text → Reply Bool → Reply (Unit {0}) → Option (Bool × List Effect)
unfolding audit
block_ip config now ip content fails logged = none
block_ip config now ip content (replies success) logged = some (
  success,
  audit config
      (record {
        timestamp = now;
        event_type = codes "firewall.block";
        decision = deny;
        context = record {
          action = codes "firewall.block";
          context = content;
          severity = none;
          source = some ip;
          destination = none;
          protocol = none;
          port = none;
        };
        rule_id = none;
        source = none;
      })
      logged,
)

unfoldable pub health_check : Reply (Unit {0}) → Bool
health_check (replies t) = true
health_check fails = false

-- MockBoundaryDaemon: the decisions by action, and the ids of the rules.
pub record Mock : Type 0 where
  pub connected : Bool
  pub mock_decisions : List (Text × PolicyDecision)
  pub mock_rules : List Text

unfoldable pub new_mock : Mock
new_mock = record { connected = true; mock_decisions = []; mock_rules = [] }

unfoldable pub mock_connect : Mock → Mock
mock_connect m = record m { connected = true }

unfoldable pub mock_disconnect : Mock → Mock
mock_disconnect m = record m { connected = false }

-- `Map.set` and `Map.get`
unfoldable pub put_decision :
    Text → PolicyDecision → List (Text × PolicyDecision) → List (Text × PolicyDecision)
unfolding same_codes
put_decision action d [] = (action, d) ∷ []
put_decision action d ((a, e) ∷ rest) =
    let later = put_decision action d rest in
    if same_codes a action then (a, d) ∷ rest else (a, e) ∷ later

-- `mockDecisions.get(action) || PolicyDecision.ALLOW`
unfoldable pub find_decision : Text → List (Text × PolicyDecision) → PolicyDecision
unfolding same_codes
find_decision action [] = allow
find_decision action ((a, d) ∷ rest) =
    let later = find_decision action rest in if same_codes a action then d else later

unfoldable pub set_mock_decision : Text → PolicyDecision → Mock → Mock
unfolding put_decision
set_mock_decision action d m = record m { mock_decisions = put_decision action d m.mock_decisions }

unfoldable pub mock_check_policy : PolicyContext → Mock → PolicyDecision
unfolding find_decision
mock_check_policy context m = find_decision context.action m.mock_decisions

unfoldable pub mock_evaluate_policy : PolicyContext → Mock → PolicyResult
unfolding find_decision
mock_evaluate_policy context m = record {
  decision = find_decision context.action m.mock_decisions;
  rule_id = none;
  reason = some (codes "Mock decision");
}

unfoldable pub mock_add_rule : Mock → Text × Mock
unfolding decimal
mock_add_rule m =
    let id = codes "mock_rule_" ++ decimal (length m.mock_rules) in
    (id, record m { mock_rules = m.mock_rules ++ id ∷ [] })
