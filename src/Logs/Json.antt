-- ===== src/Logs/Json.antt =====
-- The structured log lines of kepler-daemon/src/logs/json_parse.rs, and `normalize_level` of
-- logs/mod.rs. JSON, dates and floating point are parameters: what serde_json, chrono and `f64` give.
pub mod Laws
use kepler.Prelude.{
  ℕ, ◌*◌, ◌<◌, Bool, true, false, ◌||◌, Option, none, some, List, [], ◌∷◌, if◌then◌else◌, ltb,
  is_empty, map, String,
}
use kepler.Prelude.Int.{ℤ, pos, negsuc}
use kepler.Prelude.Maps.{Map, lookup, remove}
use kepler.Restart.{F64}
use kepler.Text.{Str, codes, str_beq, str_eq, to_lowercase}

pub data Level : Type 0 where
  trace debug info warn error fatal : Level

is_one_of : Str → List Str → Bool
is_one_of s [] = false
is_one_of s (t ∷ ts) = str_beq s t || is_one_of s ts

level_of : Str → Level
unfolding is_one_of
level_of s =
    if str_beq s (codes "trace")
    then trace
    else if str_beq s (codes "debug")
    then debug
    else if is_one_of s (codes "warn" ∷ codes "warning" ∷ [])
    then warn
    else if is_one_of s (codes "error" ∷ codes "err" ∷ [])
    then error
    else if is_one_of s
        (codes "fatal" ∷ codes "critical" ∷ codes "emergency" ∷ codes "emerg" ∷ codes "alert" ∷ [])
    then fatal
    else info

unfoldable pub normalize_level : Str → Level
unfolding level_of to_lowercase
normalize_level s = level_of (to_lowercase s)

-- `serde_json::Value`. A number is its text, with what `as_i64` and `as_f64` give of it.
mutual
  pub data Value : Type 0 where
    null : Value
    boolean : Bool → Value
    number : (shown : Str) (as_i64 : Option ℤ) (as_f64 : Option F64) → Value
    string : Str → Value
    array : Elements → Value
    object : Members → Value

  pub data Elements : Type 0 where
    end : Elements
    element : Value → Elements → Elements

  pub data Members : Type 0 where
    last : Members
    member : Str → Value → Members → Members

abbrev pub Object : Type 0
Object = Map Str Value

pub record Json : Type 0 where
  -- `serde_json::from_str` of an object
  pub from_str : Str → Option Object
  -- `to_string` of a value and of an object
  pub show_value : Value → Str
  pub show_object : Object → Str
  -- The two forms of dates, to milliseconds
  pub from_rfc3339 : Str → Option ℤ
  pub from_naive : Str → Option ℤ
  -- `f > 1_000_000_000.0`, and `(f * 1000.0) as i64`
  pub is_late : F64 → Bool
  pub to_millis : F64 → ℤ

pub record ParsedJsonLog : Type 0 where
  pub message : Str
  pub level : Option Level
  pub timestamp : Option ℤ
  pub attributes : Option Str

unfoldable pub msg_fields : List Str
msg_fields =
    codes "msg"
    ∷ codes "message"
    ∷ codes "body"
    ∷ codes "text"
    ∷ codes "log"
    ∷ codes "err"
    ∷ codes "error"
    ∷ []

unfoldable pub level_fields : List Str
level_fields =
    codes "level"
    ∷ codes "severity"
    ∷ codes "log_level"
    ∷ codes "loglevel"
    ∷ codes "levelname"
    ∷ codes "log.level"
    ∷ codes "priority"
    ∷ []

unfoldable pub time_fields : List Str
time_fields =
    codes "time"
    ∷ codes "timestamp"
    ∷ codes "ts"
    ∷ codes "datetime"
    ∷ codes "date"
    ∷ codes "@timestamp"
    ∷ codes "logged_at"
    ∷ []

level_value : Str → Object → Value → Option Level × Object
unfolding normalize_level remove
level_value name obj (string s) = (some (normalize_level s), remove name obj)
level_value name obj _ = (none, obj)

unfoldable pub extract_level : List Str → Object → Option Level × Object
unfolding level_value lookup
extract_level [] obj = (none, obj)
extract_level (name ∷ rest) obj = elim (lookup name obj) [
  | some val ↦ level_value name obj val
  | none ↦ extract_level rest obj
]

unix_time : ℤ → Option ℤ
unix_time (negsuc n) = none
unix_time (pos n) =
    if ltb 1000000000000 n
    then some (pos n)
    else if ltb 1000000000 n
    then some (pos (n * 1000))
    else none

abbrev or_else : Option ℤ → Option ℤ → Option ℤ
or_else none o = o
or_else (some ts) o = some ts

module _ (json : Json) where
  unfoldable pub message_text : Value → Str
  message_text (string s) = s
  message_text null = json.show_value null
  message_text (boolean b) = json.show_value (boolean b)
  message_text (number n i f) = json.show_value (number n i f)
  message_text (array xs) = json.show_value (array xs)
  message_text (object ms) = json.show_value (object ms)

  unfoldable pub extract_string_field : List Str → Object → Option Str × Object
  unfolding message_text lookup remove
  extract_string_field [] obj = (none, obj)
  extract_string_field (name ∷ rest) obj = elim (lookup name obj) [
    | some val ↦ (some (message_text val), remove name obj)
    | none ↦ extract_string_field rest obj
  ]

  float_time : Option F64 → Option ℤ
  float_time none = none
  float_time (some f) = if json.is_late f then some (json.to_millis f) else none

  time_of : Value → Option ℤ
  unfolding unix_time float_time
  time_of (string s) = or_else (json.from_rfc3339 s) (json.from_naive s)
  time_of (number n (some i) f) = unix_time i
  time_of (number n none f) = float_time f
  time_of _ = none

  field_time : Option Value → Option ℤ
  unfolding time_of
  field_time none = none
  field_time (some val) = time_of val

  unfoldable pub extract_timestamp : List Str → Object → Option ℤ × Object
  unfolding field_time lookup remove
  extract_timestamp [] obj = (none, obj)
  extract_timestamp (name ∷ rest) obj = elim (field_time (lookup name obj)) [
    | some ts ↦ (some ts, remove name obj)
    | none ↦ extract_timestamp rest obj
  ]

  abbrev message_or : Option Str → Str → Str
  message_or none line = line
  message_or (some message) line = message

  -- What is left of the object after the three extractions, with what they gave.
  unfoldable pub extract : Object → (Option Str × Option Level × Option ℤ) × Object
  unfolding extract_string_field extract_level extract_timestamp msg_fields level_fields time_fields
  extract obj =
      let (message, after_message) = extract_string_field msg_fields obj in
      let (level, after_level) = extract_level level_fields after_message in
      let (timestamp, rest) = extract_timestamp time_fields after_level in
      ((message, level, timestamp), rest)

  unfoldable pub parsed_of : Str → (Option Str × Option Level × Option ℤ) × Object → ParsedJsonLog
  parsed_of line ((message, level, timestamp), rest) = record {
    message = message_or message line;
    level = level;
    timestamp = timestamp;
    attributes = if is_empty rest then none else some (json.show_object rest);
  }

  parse_object : Str → Option Object → Option ParsedJsonLog
  unfolding parsed_of extract
  parse_object line none = none
  parse_object line (some obj) = some (parsed_of line (extract obj))

  unfoldable pub try_parse_json_log : Str → Option ParsedJsonLog
  unfolding parse_object
  try_parse_json_log line = parse_object line (json.from_str line)
