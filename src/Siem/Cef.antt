-- ===== src/Siem/Cef.antt =====
-- The class CEFFormatter of sdk/security/boundary-siem.ts. `date_time` stands for
-- `new Date(timestamp).getTime()`, as it is printed.
use ilr_module.Prelude.{
  ℕ, zero, suc, ◌+◌, ◌/◌, ◌%◌, List, [], ◌∷◌, ◌++◌, ltb, leb, if◌then◌else◌, Option, none, some,
}
use ilr_module.Prelude.Text.{Text, codes}
use ilr_module.Siem.Events.{
  Severity, severity_value, Outcome, success, failure, unknown, SecurityEvent,
}

-- The decimal digits of a number, with as much fuel as the number is.
unfoldable pub decimal_loop : ℕ → ℕ → Text → Text
decimal_loop zero n acc = (b'0' + n % 10) ∷ acc
decimal_loop (suc fuel) n acc =
    let rest = decimal_loop fuel (n / 10) ((b'0' + n % 10) ∷ acc) in
    if ltb n 10 then (b'0' + n % 10) ∷ acc else rest

unfoldable pub decimal : ℕ → Text
unfolding decimal_loop
decimal n = decimal_loop n n []

unfoldable pub outcome_text : Outcome → Text
outcome_text success = codes "success"
outcome_text failure = codes "failure"
outcome_text unknown = codes "unknown"

-- `Math.min(severity, 10)`
unfoldable pub map_severity : Severity → ℕ
unfolding severity_value
map_severity s = if leb (severity_value s) 10 then severity_value s else 10

-- `parts.join(' ')`
unfoldable pub join_by : ℕ → List Text → Text
join_by c [] = []
join_by c (t ∷ []) = t
join_by c (t ∷ u ∷ ts) = t ++ c ∷ join_by c (u ∷ ts)

-- `if (text) parts.push(…)`: an empty string is false.
unfoldable pub optional_part : Option Text → (Text → List Text) → List Text
optional_part none f = []
optional_part (some []) f = []
optional_part (some (c ∷ t)) f = f (c ∷ t)

-- The parts of the custom fields, from the one at `index` on; those from 6 on are left out.
unfoldable pub custom_parts : ℕ → List (Text × Text) → List Text
unfolding decimal
custom_parts index [] = []
custom_parts index ((key, value) ∷ rest) =
    (if ltb index 6
      then ((codes "cs" ++ decimal (index + 2) ++ codes "=" ++ value)
          ∷ (codes "cs" ++ decimal (index + 2) ++ codes "Label=" ++ key)
          ∷ [])
      else [])
    ++ custom_parts (index + 1) rest

unfoldable pub fields_parts : Option (List (Text × Text)) → List Text
unfolding custom_parts
fields_parts none = []
fields_parts (some fields) = custom_parts 0 fields

unfoldable pub build_extension : (Text → Text) → SecurityEvent → Text
unfolding join_by optional_part fields_parts outcome_text
build_extension date_time event = join_by b' ' (
    (codes "rt=" ++ date_time event.timestamp)
    ∷ (codes "outcome=" ++ outcome_text event.outcome)
    ∷ (codes "src=" ++ event.source.host)
    ∷ (codes "sproc=" ++ event.source.product)
    ∷ (optional_part event.correlation_id (λ t. (codes "externalId=" ++ t) ∷ [])
        ++ (optional_part event.session_id
              (λ t. (codes "cs1=" ++ t) ∷ codes "cs1Label=SessionID" ∷ [])
            ++ fields_parts event.fields)))

unfoldable pub cef_format : (Text → Text) → SecurityEvent → Text
unfolding build_extension map_severity decimal
cef_format date_time event =
    codes "CEF:0|"
    ++ (codes "NatLangChain"
        ++ (codes "|"
            ++ (codes "ILRM"
                ++ (codes "|"
                    ++ (codes "0.1.0-alpha"
                        ++ (codes "|"
                            ++ (event.action
                                ++ (codes "|"
                                    ++ (event.message
                                        ++ (codes "|"
                                            ++ (decimal (map_severity event.severity)
                                                ++ (codes "|"
                                                    ++ build_extension date_time event))))))))))))
