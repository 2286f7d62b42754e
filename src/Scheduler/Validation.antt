-- ===== src/Scheduler/Validation.antt =====
-- _validate_schedule_body of marlinspike/fleet/api.py, which a schedule passes before it is saved, and
-- how marlinspike/scheduler.py reads a saved one. `digit` gives the value of a decimal digit that is
-- not ASCII, and `parse` what the scheduler makes of an entry that is not validated.
use net_discover.Prelude.{
  ℕ, suc, ◌+◌, ◌-◌, ◌*◌, String, List, [], ◌∷◌, Option, none, some, Bool, true, false, ◌&&◌, ◌||◌,
  not, ◌==◌, leb, ltb, str_eq, map, if◌then◌else◌, any,
}
use net_discover.Capd.FileNames.{codes, is_digit}
use net_discover.Runs.Row.{is_none}
use net_discover.Capd.Server.Sessions.{Value, missing, int, strip}
use net_discover.Scheduler.Slots.{Entry, time}
use net_discover.Scheduler.Ticks.{Schedule}

-- An entry of a list: a text, or something else.
pub data Item : Type 0 where
  text : String → Item
  no_text : Item

-- A value of the body.
pub data Datum : Type 0 where
  boolean : Bool → Datum
  integer : ℕ → Datum
  string : String → Datum
  list : List Item → Datum
  other : Datum

pub record Body : Type 0 where
  pub has_unknown_keys : Bool
  pub enabled : Option Datum
  pub times_utc : Option Datum
  pub duration_s : Option Datum
  pub interface : Option Datum
  pub bpf_filter : Option Datum

pub data Refusal : Type 0 where
  unknown_keys enabled_no_boolean times_no_list invalid_time duration_not_positive : Refusal
  interface_no_string bpf_no_string interface_required times_required : Refusal

unfoldable pub digit_value : (ℕ → Option ℕ) → ℕ → Option ℕ
digit_value digit c = if is_digit c then some (c - 48) else if ltb c 128 then none else digit c

abbrev pub is_hour : (ℕ → Option ℕ) → ℕ → ℕ → Bool
is_hour digit a b =
    ((a == 48 || a == 49) && not (is_none (digit_value digit b)))
    || (a == 50 && (leb 48 b && leb b 51))

abbrev pub is_minute : (ℕ → Option ℕ) → ℕ → ℕ → Bool
is_minute digit a b = (leb 48 a && leb a 53) && not (is_none (digit_value digit b))

-- The end of the text, before which `$` lets a newline stand.
abbrev pub is_end : List ℕ → Bool
is_end [] = true
is_end (c ∷ []) = c == 10
is_end _ = false

-- `_TIME_UTC_RE.match`
unfoldable pub matches_time : (ℕ → Option ℕ) → List ℕ → Bool
unfolding digit_value
matches_time digit (a ∷ b ∷ colon ∷ c ∷ d ∷ rest) =
    (is_hour digit a b && colon == 58) && (is_minute digit c d && is_end rest)
matches_time digit _ = false

unfoldable pub is_valid_item : (ℕ → Option ℕ) → Item → Bool
unfolding matches_time codes
is_valid_item digit (text t) = matches_time digit (codes t)
is_valid_item digit no_text = false

abbrev pub is_boolean : Option Datum → Bool
is_boolean none = true
is_boolean (some (boolean _)) = true
is_boolean _ = false

abbrev pub is_string : Option Datum → Bool
is_string none = true
is_string (some (string _)) = true
is_string _ = false

abbrev pub is_positive : Option Datum → Bool
is_positive none = true
is_positive (some (integer (suc _))) = true
is_positive _ = false

abbrev pub is_list : Option Datum → Bool
is_list none = true
is_list (some (list (_ ∷ _))) = true
is_list _ = false

abbrev pub items_of : Option Datum → List Item
items_of (some (list items)) = items
items_of _ = []

abbrev pub is_set : Option Datum → Bool
is_set (some (string t)) = not (str_eq t "")
is_set _ = false

abbrev pub is_on : Option Datum → Bool
is_on (some (boolean b)) = b
is_on _ = false

-- `none` is a body without fault.
unfoldable pub validate_schedule_body : (ℕ → Option ℕ) → Body → Option Refusal
unfolding is_valid_item any
validate_schedule_body digit body =
    if body.has_unknown_keys
    then some unknown_keys
    else if not (is_boolean body.enabled)
    then some enabled_no_boolean
    else if not (is_list body.times_utc)
    then some times_no_list
    else if any (λ i. not (is_valid_item digit i)) (items_of body.times_utc)
    then some invalid_time
    else if not (is_positive body.duration_s)
    then some duration_not_positive
    else if not (is_string body.interface)
    then some interface_no_string
    else if not (is_string body.bpf_filter)
    then some bpf_no_string
    else if is_on body.enabled && not (is_set body.interface)
    then some interface_required
    else if is_on body.enabled && is_none body.times_utc
    then some times_required
    else none

-- `int` of two digits.
abbrev pub two_digits : Option ℕ → Option ℕ → Option ℕ
two_digits (some a) (some b) = some (10 * a + b)
two_digits _ _ = none

abbrev pub time_or : Entry → Option ℕ → Option ℕ → Entry
time_or e (some hh) (some mm) = time hh mm
time_or e _ _ = e

-- The two integers around the colon.
unfoldable pub read_time : (ℕ → Option ℕ) → Entry → List ℕ → Entry
unfolding digit_value
read_time digit e (a ∷ b ∷ colon ∷ c ∷ d ∷ rest) =
    time_or e (two_digits (digit_value digit a) (digit_value digit b))
      (two_digits (digit_value digit c) (digit_value digit d))
read_time digit e _ = e

-- What the scheduler makes of an entry.
unfoldable pub read_entry : (ℕ → Option ℕ) → (Item → Entry) → Item → Entry
unfolding codes matches_time read_time
read_entry digit parse no_text = parse no_text
read_entry digit parse (text t) =
    if matches_time digit (codes t)
    then read_time digit (parse (text t)) (codes t)
    else parse (text t)

-- `int(schedule.get("duration_s") or 300)` of a datum.
abbrev pub value_of : Option Datum → Value
value_of none = missing
value_of (some (integer n)) = int n
value_of _ = Value.no_int

abbrev pub text_of : Option Datum → String
text_of (some (string t)) = t
text_of _ = ""

-- The schedule that the scheduler reads from a saved body.
unfoldable pub schedule_of : (ℕ → Option ℕ) → (Item → Entry) → Body → Schedule
unfolding read_entry
schedule_of digit parse body = record {
  enabled = is_on body.enabled;
  times_utc = map (read_entry digit parse) (items_of body.times_utc);
  interface = strip (text_of body.interface);
  duration_s = value_of body.duration_s;
  bpf_filter = text_of body.bpf_filter;
}
