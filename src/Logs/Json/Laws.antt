-- ===== src/Logs/Json/Laws.antt =====
-- The extraction of fields in kepler-daemon/src/logs/json_parse.rs takes what it names and nothing else.
use kepler.Prelude.{
  ◌≡◌, refl, sym, ap, ◌∙◌, Bool, true, false, not, ◌||◌, Option, none, some, List, [], ◌∷◌, arith,
  Option-cases, Bool-cases, inl, inr, if◌then◌else◌, contains, is_empty, is_some, all, unwrap_or,
}
use kepler.Prelude.Maps.{lookup, lookup-remove}
use kepler.Text.{Str, str_beq, str_eq, str_beq_iff}
use kepler.Logs.Json.{
  Value, Object, Json, Level, null, boolean, string, number, array, object, normalize_level,
  msg_fields, level_fields, time_fields, level_value, message_text, extract_level,
  extract_string_field, extract_timestamp, extract, field_time, ParsedJsonLog, try_parse_json_log,
  parse_object, parsed_of, message_or,
}

-- The first name that passes
first : (Str → Bool) → List Str → Option Str
first p [] = none
first p (name ∷ names) = if p name then some name else first p names

abbrev names_it : Option Str → Str → Bool
names_it none k = false
names_it (some name) k = str_beq name k

abbrev is_present : Object → Str → Bool
is_present obj name = is_some (lookup name obj)

abbrev level_in : Option Value → Option Level
level_in (some (string s)) = some (normalize_level s)
level_in _ = none

-- The name of the level, if its value is a text
abbrev if_level : Object → Option Str → Option Str
if_level obj none = none
if_level obj (some name) = if is_some (level_in (lookup name obj)) then some name else none

abbrev read_at : {A : Type 0} → (Option Value → Option A) → Object → Option Str → Option A
read_at read obj none = none
read_at read obj (some name) = read (lookup name obj)

first-contains :
    (p : Str → Bool) (names : List Str) (name : Str)
    → first p names ≡ some name
    → contains names name ≡ true
unfolding first contains
first-contains p [] name e = absurd (cc)
first-contains p (n ∷ names) name e = elim (Bool-cases (p n)) [
  | inl holds ↦
      let same : n ≡ name = ground (arith, holds, e) in ground (arith, str_beq_iff n name, same)
  | inr fails ↦
      let rest : first p names ≡ some name = ground (arith, fails, e) in
      rw (first-contains p names name rest) (ground arith)
]

first-cong :
    (p q : Str → Bool) (names : List Str)
    → ((k : Str) → contains names k ≡ true → p k ≡ q k)
    → first p names ≡ first q names
unfolding first contains
first-cong p q [] h = refl
first-cong p q (n ∷ names) h =
    let here : p n ≡ q n = h n (rw ((str_beq_iff n n).1 refl) refl) in
    let rest = first-cong p q names (λ k c. h k (rw c (ground arith))) in rw (here, rest) refl

-- Lists without a common name
abbrev are_apart : List Str → List Str → Bool
are_apart xs ys = all (λ x. not (contains ys x)) xs

apart-contains :
    (xs ys : List Str) (k : Str)
    → are_apart xs ys ≡ true
    → contains xs k ≡ true
    → contains ys k ≡ false
unfolding contains all
apart-contains [] ys k h c = absurd (cc)
apart-contains (x ∷ xs) ys k h c = elim (Bool-cases (str_beq x k)) [
  | inl same ↦
      let eq : x ≡ k = (str_beq_iff x k).0 same in
      let out : contains ys x ≡ false = ground (arith, h) in rw eq at out
  | inr other ↦ apart-contains xs ys k (ground (arith, h)) (ground (arith, other, c))
]

names_it-apart :
    (p : Str → Bool) (xs ys : List Str) (k : Str)
    → are_apart xs ys ≡ true
    → contains ys k ≡ true
    → names_it (first p xs) k ≡ false
names_it-apart p xs ys k h c = elim (Option-cases (first p xs)) [
  | inl e ↦ rw e refl
  | inr (name, e) ↦ elim (Bool-cases (str_beq name k)) [
    | inr other ↦ rw (e, other) refl
    | inl same ↦
        let eq : name ≡ k = (str_beq_iff name k).0 same in
        let out = apart-contains xs ys name h (first-contains p xs name e) in
        let clash : contains ys k ≡ false = rw eq at out in absurd (cc)
  ]
]

taken_cases :
    (m l t : Bool) (v : Option Value)
    → (if t then none else if l then none else if m then none else v)
      ≡ (if m || (l || t) then none else v)
taken_cases m l t v = ground arith

-- An object without a field
abbrev Without : Option Str → Object → Object → Type 0
Without taken obj rest =
    (k : Str) → lookup k rest ≡ (if names_it taken k then none else lookup k obj)

level_value-first :
    (name : Str) (obj : Object) (v : Value)
    → lookup name obj ≡ some v
    → ((level_value name obj v).0 ≡ level_in (some v))
      × Without
          (if is_some (level_in (some v)) then some name else none)
          obj
          (level_value name obj v).1
unfolding level_value
level_value-first name obj (string s) e = (refl, λ k. lookup-remove name k obj)
level_value-first name obj null e = (refl, λ k. refl)
level_value-first name obj (boolean b) e = (refl, λ k. refl)
level_value-first name obj (number n i f) e = (refl, λ k. refl)
level_value-first name obj (array xs) e = (refl, λ k. refl)
level_value-first name obj (object ms) e = (refl, λ k. refl)

extract_level-first :
    (names : List Str) (obj : Object)
    → ((extract_level names obj).0 ≡ read_at level_in obj (first (is_present obj) names))
      × Without (if_level obj (first (is_present obj) names)) obj (extract_level names obj).1
unfolding extract_level first
extract_level-first [] obj = (refl, λ k. refl)
extract_level-first (name ∷ names) obj = elim (Option-cases (lookup name obj)) [
  | inl absent ↦ rw (absent, extract_level) (extract_level-first names obj)
  | inr (v, found) ↦ rw (found, extract_level) (rw found (level_value-first name obj v found))
]

module _ (json : Json) where
  abbrev text_in : Option Value → Option Str
  text_in none = none
  text_in (some v) = some (message_text json v)

  -- Whether a field has a time
  abbrev has_time : Object → Str → Bool
  has_time obj name = is_some (field_time json (lookup name obj))

  extract_string_field-first :
      (names : List Str) (obj : Object)
      → ((extract_string_field json names obj).0
          ≡ read_at text_in obj (first (is_present obj) names))
        × Without (first (is_present obj) names) obj (extract_string_field json names obj).1
  unfolding extract_string_field first
  extract_string_field-first [] obj = (refl, λ k. refl)
  extract_string_field-first (name ∷ names) obj = elim (Option-cases (lookup name obj)) [
    | inl absent ↦ rw (absent, extract_string_field) (extract_string_field-first names obj)
    | inr (v, found) ↦
        rw (found, extract_string_field) ((rw found refl, λ k. lookup-remove name k obj))
  ]

  extract_timestamp-first :
      (names : List Str) (obj : Object)
      → ((extract_timestamp json names obj).0
          ≡ read_at (field_time json) obj (first (has_time obj) names))
        × Without (first (has_time obj) names) obj (extract_timestamp json names obj).1
  unfolding extract_timestamp first
  extract_timestamp-first [] obj = (refl, λ k. refl)
  extract_timestamp-first (name ∷ names) obj =
      elim (Option-cases (field_time json (lookup name obj))) [
        | inl absent ↦ rw (absent, extract_timestamp) (extract_timestamp-first names obj)
        | inr (ts, found) ↦
            rw (found, extract_timestamp) ((sym found, λ k. lookup-remove name k obj))
      ]

  message_name : Object → Option Str
  message_name obj = first (is_present obj) msg_fields

  level_name : Object → Option Str
  level_name obj = if_level obj (first (is_present obj) level_fields)

  time_name : Object → Option Str
  time_name obj = first (has_time obj) time_fields

  abbrev is_taken : Object → Str → Bool
  is_taken obj k =
      names_it (message_name obj) k || (names_it (level_name obj) k || names_it (time_name obj) k)

  -- Without the message, the fields of later lists are as they were.
  kept_for :
      (p : Str → Bool) (xs ys : List Str) (obj rest : Object)
      → are_apart xs ys ≡ true
      → Without (first p xs) obj rest
      → (k : Str) → contains ys k ≡ true
      → lookup k rest ≡ lookup k obj
  kept_for p xs ys obj rest h w k c = w k ∙ rw (names_it-apart p xs ys k h c) refl

  -- The level, taken or not, is a name of its list.
  kept_for_level :
      (p : Str → Bool) (ys : List Str) (obj from rest : Object)
      → are_apart level_fields ys ≡ true
      → Without (if_level from (first p level_fields)) obj rest
      → (k : Str) → contains ys k ≡ true
      → lookup k rest ≡ lookup k obj
  kept_for_level p ys obj from rest h w k c =
      let apart = names_it-apart p level_fields ys k h c in
      w k ∙ elim (Option-cases (first p level_fields)) [
        | inl e ↦ rw e refl
        | inr (name, e) ↦
            let other : str_beq name k ≡ false = rw e at apart in
            elim (Bool-cases (is_some (level_in (lookup name from)))) [
              | inl read ↦ rw (e, read, other) refl
              | inr unread ↦ rw (e, unread) refl
            ]
      ]

  lists_apart :
      (are_apart msg_fields level_fields ≡ true)
      × (are_apart msg_fields time_fields ≡ true)
      × (are_apart level_fields time_fields ≡ true)
  unfolding msg_fields level_fields time_fields contains all
  lists_apart = (refl, refl, refl)

  read_at-agree :
      {A : Type 0} (read : Option Value → Option A) (p : Str → Bool) (names : List Str)
      (obj rest : Object)
      → ((k : Str) → contains names k ≡ true → lookup k rest ≡ lookup k obj)
      → read_at read rest (first p names) ≡ read_at read obj (first p names)
  read_at-agree read p names obj rest h = elim (Option-cases (first p names)) [
    | inl e ↦ rw e refl
    | inr (name, e) ↦ rw e (ap read (h name (first-contains p names name e)))
  ]

  if_level-agree :
      (p : Str → Bool) (names : List Str) (obj rest : Object)
      → ((k : Str) → contains names k ≡ true → lookup k rest ≡ lookup k obj)
      → if_level rest (first p names) ≡ if_level obj (first p names)
  if_level-agree p names obj rest h = elim (Option-cases (first p names)) [
    | inl e ↦ rw e refl
    | inr (name, e) ↦ rw e (
        ap (λ v. if is_some (level_in v) then some name else none)
          (h name (first-contains p names name e)))
  ]

  unwrap-message : (o : Option Str) (line : Str) → message_or json o line ≡ unwrap_or o line
  unwrap-message none line = refl
  unwrap-message (some s) line = refl

  -- What a line with an object gives: the message is the text of the first field with a name for
  -- messages, or the line; the level is that of the first field with a name for levels, if it is a
  -- text; the time is that of the first field with a name for times that has one. The attributes are
  -- the object without these three fields, where anything is left of it.
  pub Extracts : Str → Object → ParsedJsonLog → Type 0
  Extracts line obj parsed =
      (rest : Object) × (parsed.attributes
        ≡ (if is_empty rest then none else some (json.show_object rest)))
      × ((k : Str) → lookup k rest ≡ (if is_taken obj k then none else lookup k obj))
      × (parsed.message ≡ unwrap_or (read_at text_in obj (message_name obj)) line)
      × (parsed.level ≡ read_at level_in obj (first (is_present obj) level_fields))
      × (parsed.timestamp ≡ read_at (field_time json) obj (time_name obj))

  extract-Extracts :
      (line : Str) (obj : Object) → Extracts line obj (parsed_of json line (extract json obj))
  unfolding Extracts extract parsed_of message_name level_name time_name
  extract-Extracts line obj =
      let m = extract_string_field json msg_fields obj in
      let l = extract_level level_fields m.1 in
      let t = extract_timestamp json time_fields l.1 in
      let (message_is, without_message) = extract_string_field-first msg_fields obj in
      let (level_is, without_level) = extract_level-first level_fields m.1 in
      let (time_is, without_time) = extract_timestamp-first time_fields l.1 in
      let levels_kept =
        kept_for (is_present obj) msg_fields level_fields obj m.1 lists_apart.0 without_message in
      let level_name_is =
        first-cong (is_present m.1) (is_present obj) level_fields
          (λ k c. ap is_some (levels_kept k c)) in
      let times_kept : (k : Str) → contains time_fields k ≡ true → lookup k l.1 ≡ lookup k obj =
        λ k c.
          kept_for_level (is_present m.1) time_fields m.1 m.1 l.1 lists_apart.2 without_level k c
          ∙ kept_for (is_present obj) msg_fields time_fields obj m.1 lists_apart.1 without_message k
              c in
      let time_name_is =
        first-cong (has_time l.1) (has_time obj) time_fields
          (λ k c. ap (λ v. is_some (field_time json v)) (times_kept k c)) in
      let taken_level : if_level m.1 (first (is_present m.1) level_fields)
          ≡ if_level obj (first (is_present obj) level_fields) =
        ap (if_level m.1) level_name_is
        ∙ if_level-agree (is_present obj) level_fields obj m.1 levels_kept in
      (
        t.1,
        refl,
        λ k.
            without_time k
            ∙ rw (time_name_is, without_level k, taken_level, without_message k)
                (taken_cases (names_it (message_name obj) k) (names_it (level_name obj) k)
                  (names_it (time_name obj) k) (lookup k obj)),
        unwrap-message m.0 line ∙ ap (λ o. unwrap_or o line) message_is,
        level_is
            ∙ ap (read_at level_in m.1) level_name_is
            ∙ read_at-agree level_in (is_present obj) level_fields obj m.1 levels_kept,
        time_is
            ∙ ap (read_at (field_time json) l.1) time_name_is
            ∙ read_at-agree (field_time json) (has_time obj) time_fields obj l.1 times_kept,
      )

-- A line that is a JSON object is parsed; its message, level and time are those of the fields that
-- the lists of names say, and its attributes are the text of the object without exactly these fields.
pub try_parse_json_log-Extracts :
    (json : Json) (line : Str) (obj : Object)
    → json.from_str line ≡ some obj
    → (parsed : ParsedJsonLog) × (try_parse_json_log json line ≡ some parsed)
      × Extracts json line obj parsed
unfolding try_parse_json_log parse_object
try_parse_json_log-Extracts json line obj e = (
  parsed_of json line (extract json obj),
  ap (parse_object json line) e,
  extract-Extracts json line obj,
)
