-- ===== src/Siem/Events.antt =====
-- The types and the configuration of sdk/security/boundary-siem.ts.
use ilr_module.Prelude.{
  ℕ, List, [], ◌∷◌, ◌++◌, Bool, true, false, ◌&&◌, ◌==◌, if◌then◌else◌, Option, none, some, drop,
}
use ilr_module.Prelude.Text.{Text, codes}

pub data Severity : Type 0 where
  debug information low medium high critical emergency : Severity

-- The numbers of the enumeration.
unfoldable pub severity_value : Severity → ℕ
severity_value debug = 0
severity_value information = 1
severity_value low = 3
severity_value medium = 5
severity_value high = 7
severity_value critical = 9
severity_value emergency = 10

pub data Outcome : Type 0 where
  success failure unknown : Outcome

pub record EventSource : Type 0 where
  pub product : Text
  pub host : Text
  pub version : Text
  pub component : Option Text

-- The interface SecurityEvent. `fields` is its `data`, each value as `String(value)` prints it.
pub record SecurityEvent : Type 0 where
  pub timestamp : Text
  pub source : EventSource
  pub action : Text
  pub outcome : Outcome
  pub severity : Severity
  pub message : Text
  pub fields : Option (List (Text × Text))
  pub correlation_id : Option Text
  pub session_id : Option Text

pub data Format : Type 0 where
  json cef : Format

pub record SiemConfig : Type 0 where
  pub endpoint : Text
  pub api_key : Option Text
  pub format : Option Format
  pub batch_size : Option ℕ
  pub flush_interval : Option ℕ
  pub max_retries : Option ℕ
  pub retry_delay : Option ℕ
  pub timeout : Option ℕ
  pub enable_web_socket : Option Bool
  pub ws_endpoint : Option Text
  pub tls_verify : Option Bool

-- `Required<SIEMConfig>`
pub record FullConfig : Type 0 where
  pub endpoint : Text
  pub api_key : Text
  pub format : Format
  pub batch_size : ℕ
  pub flush_interval : ℕ
  pub max_retries : ℕ
  pub retry_delay : ℕ
  pub timeout : ℕ
  pub enable_web_socket : Bool
  pub ws_endpoint : Text
  pub tls_verify : Bool

-- `a || d` of a number: 0 is false as well.
unfoldable pub number_or : Option ℕ → ℕ → ℕ
number_or none d = d
number_or (some n) d = if n == 0 then d else n

-- `a || d` of a string: the empty string is false as well.
unfoldable pub text_or : Option Text → Text → Text
text_or none d = d
text_or (some []) d = d
text_or (some (c ∷ t)) d = c ∷ t

-- `a ?? d`, and `a || d` of a format, which is never false.
unfoldable pub value_or {ℓ} : {A : Type ℓ} → Option A → A → A
value_or none d = d
value_or (some a) d = a

unfoldable pub starts_with : Text → Text → Bool
starts_with [] t = true
starts_with (c ∷ s) [] = false
starts_with (c ∷ s) (d ∷ t) = (c == d) && starts_with s t

-- `endpoint.replace(/^http/, 'ws')`
unfoldable pub replace_http : Text → Text
unfolding starts_with
replace_http endpoint =
    if starts_with (codes "http") endpoint then codes "ws" ++ drop 4 endpoint else endpoint

unfoldable pub full_config : SiemConfig → FullConfig
unfolding number_or text_or value_or replace_http
full_config config = record {
  endpoint = config.endpoint;
  api_key = text_or config.api_key [];
  format = value_or config.format json;
  batch_size = number_or config.batch_size 100;
  flush_interval = number_or config.flush_interval 5000;
  max_retries = number_or config.max_retries 3;
  retry_delay = number_or config.retry_delay 1000;
  timeout = number_or config.timeout 10000;
  enable_web_socket = value_or config.enable_web_socket false;
  ws_endpoint = text_or config.ws_endpoint (replace_http config.endpoint ++ codes "/ws/alerts");
  tls_verify = value_or config.tls_verify true;
}
