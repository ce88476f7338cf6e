-- ===== src/EventMonitor/Filter.antt =====
-- internal/eventmonitor/worker/worker.go: whether a log is for a subscriber, and the numbers of a log.
-- Texts are ASCII; a number has no underscore, and one from the node no sign.
use triggerx_backend.Prelude.{
  ℕ, zero, suc, ◌+◌, ◌-◌, ◌*◌, ◌%◌, ◌^◌, Bool, true, false, ◌&&◌, ◌||◌, Option, none, some, List,
  [], ◌∷◌, ◌++◌, get_elem?, leb, ◌==◌, if◌then◌else◌,
}
use triggerx_backend.Prelude.Int.{ℤ, pos, negsuc}
use triggerx_backend.Prelude.Results.{Result, ok, panic}
use triggerx_backend.Prelude.Texts.{Text, text, text_eq}
use triggerx_backend.Prelude.Decimal.{is_digit}
use triggerx_backend.Registry.Manager.{Subscriber}

pub record Log : Type 0 where
  pub topics : List Text
  pub contents : Text
  pub block_number : Text
  pub transaction_hash : Text
  pub log_index : Text

pub data WorkerError : Type 0 where
  bad_block_number bad_log_index no_block_number : WorkerError

-- `strings.ToLower`
unfoldable pub to_lower : Text → Text
to_lower [] = []
to_lower (x ∷ t) = (if leb 65 x && leb x 90 then x + 32 else x) ∷ to_lower t

-- `strings.TrimPrefix` and `strings.HasPrefix` in one.
unfoldable pub without_prefix : Text → Text → Option Text
without_prefix [] t = some t
without_prefix (x ∷ p) [] = none
without_prefix (x ∷ p) (y ∷ t) = let rest = without_prefix p t in if x == y then rest else none

-- The digits at the front; at least one where `seen` says so.
unfoldable pub scan_digits : Bool → ℕ → Text → Option ℕ
scan_digits seen acc [] = if seen then some acc else none
scan_digits seen acc (x ∷ t) =
    let rest = scan_digits true (acc * 10 + (x - 48)) t in
    if is_digit x then rest else if seen then some acc else none

abbrev pub negated : Option ℕ → Option ℤ
negated none = none
negated (some zero) = some (pos 0)
negated (some (suc n)) = some (negsuc n)

abbrev pub unsigned : Option ℕ → Option ℤ
unsigned none = none
unsigned (some n) = some (pos n)

-- `fmt.Sscanf` with `%d`: 32 is a space, 43 and 45 are the signs.
unfoldable pub scan_int : Text → Option ℤ
unfolding scan_digits
scan_int [] = none
scan_int (x ∷ t) =
    let rest = scan_int t in
    if x == 32
    then rest
    else if x == 43
    then unsigned (scan_digits false 0 t)
    else if x == 45
    then negated (scan_digits false 0 t)
    else unsigned (scan_digits false 0 (x ∷ t))

abbrev pub scan_param : Option Text → Text → Option ℤ
scan_param (some index) param = scan_int index
scan_param none param = scan_int param

-- The index of a topic, or none for a parameter that is no index.
unfoldable pub topic_index : Text → Option ℤ
unfolding text_eq scan_int without_prefix
topic_index param =
    if text_eq param (text "topic0") || text_eq param (text "0")
    then some (pos 0)
    else if text_eq param (text "topic1") || text_eq param (text "1")
    then some (pos 1)
    else if text_eq param (text "topic2") || text_eq param (text "2")
    then some (pos 2)
    else if text_eq param (text "topic3") || text_eq param (text "3")
    then some (pos 3)
    else scan_param (without_prefix (text "topic") param) param

abbrev pub with_0x : Option Text → Text → Text
with_0x (some rest) t = t
with_0x none t = text "0x" ++ t

abbrev pub topic_is : Text → Option Text → Result WorkerError Bool
topic_is wanted none = ok false
topic_is wanted (some topic) = ok (text_eq (to_lower topic) wanted)

-- A negative index is below the number of topics, and panics.
abbrev pub matches_topic : Log → Text → Option ℤ → Result WorkerError Bool
matches_topic log wanted none = ok true
matches_topic log wanted (some (pos i)) = topic_is wanted (get_elem? log.topics i)
matches_topic log wanted (some (negsuc i)) = panic

unfoldable pub matches_filter : Log → Subscriber → Result WorkerError Bool
unfolding to_lower topic_index without_prefix text_eq
matches_filter log s =
    if text_eq s.filter_param [] || text_eq s.filter_value []
    then ok true
    else let value = to_lower s.filter_value in
      matches_topic log (with_0x (without_prefix (text "0x") value) value)
        (topic_index s.filter_param)

abbrev pub hex_digit : ℕ → Option ℕ
hex_digit x =
    if leb 48 x && leb x 57
    then some (x - 48)
    else if leb 97 x && leb x 102
    then some (x - 87)
    else if leb 65 x && leb x 70
    then some (x - 55)
    else none

unfoldable pub read_hex : ℕ → Text → Option ℕ
read_hex acc [] = some acc
read_hex acc (x ∷ t) = elim (hex_digit x) [ none ↦ none | some d ↦ read_hex (acc * 16 + d) t ]

abbrev pub hex_value : Text → Option ℕ
hex_value [] = none
hex_value (x ∷ t) = read_hex 0 (x ∷ t)

abbrev pub as_uint64 : Option ℕ → Option ℕ
as_uint64 none = none
as_uint64 (some n) = some (n % 2 ^ 64)

abbrev pub trimmed : Option Text → Text → Text
trimmed (some rest) t = rest
trimmed none t = t

unfoldable pub hex_to_uint64 : Text → Option ℕ
unfolding read_hex without_prefix
hex_to_uint64 t = as_uint64 (hex_value (trimmed (without_prefix (text "0x") t) t))
