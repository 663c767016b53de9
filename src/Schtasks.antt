-- ===== src/Schtasks.antt =====
-- src/tools/scheduling/cron_to_schtasks.cpp: from a cron expression to the arguments of schtasks.
pub mod Numbers
pub mod Shapes
pub mod Translated
mod Tests
use server_mcp_bridge.Base.{
  ℕ, zero, suc, ◌+◌, ◌*◌, ◌-◌, ◌/◌, ◌%◌, Bool, true, false, not, ◌&&◌, ◌||◌, Option, none, some,
  List, [], ◌∷◌, ◌++◌, Text, codes, text_eq, ltb, leb, ◌==◌, length, is_empty, take, drop, get_or,
  if◌then◌else◌,
}
use server_mcp_bridge.CronSyntax.{is_blank}

-- The loop of `split_fields`, with `cur`.
unfoldable pub split_from : (cur : Text) → Text → List Text
split_from cur [] = if is_empty cur then [] else cur ∷ []
split_from cur (c ∷ cs) =
    let next = split_from [] cs in
    let on = split_from (cur ++ c ∷ []) cs in
    if is_blank c then (if is_empty cur then next else cur ∷ next) else on

abbrev pub split_fields : Text → List Text
split_fields s = split_from [] s

-- The loop of `parse_int_in_range`; `none` where the source returns -1.
unfoldable pub parse_digits : (v : ℕ) → Text → Option ℕ
parse_digits v [] = some v
parse_digits v (c ∷ cs) =
    let v' = v * 10 + (c - b'0') in
    let rest = parse_digits v' cs in
    if ltb c b'0' || ltb b'9' c then none else if ltb 100_000 v' then none else rest

abbrev pub in_range : (lo hi : ℕ) → Option ℕ → Option ℕ
in_range lo hi none = none
in_range lo hi (some v) = if ltb v lo || ltb hi v then none else some v

unfoldable pub parse_int_in_range : Text → (lo hi : ℕ) → Option ℕ
unfolding parse_digits
parse_int_in_range s lo hi = if is_empty s then none else in_range lo hi (parse_digits 0 s)

abbrev pub days : List Text
days =
    codes "SUN"
    ∷ codes "MON"
    ∷ codes "TUE"
    ∷ codes "WED"
    ∷ codes "THU"
    ∷ codes "FRI"
    ∷ codes "SAT"
    ∷ []

-- `std::toupper` in the C locale.
abbrev pub toupper : ℕ → ℕ
toupper c = if leb b'a' c && leb c b'z' then c - 32 else c

abbrev pub upper : Text → Text
upper [] = []
upper (c ∷ cs) = toupper c ∷ upper cs

-- `for (int i = 0; i < 7; ++i) if (up == days[i]) return days[i]; return "";`.
unfoldable pub find_day : Text → List Text → Text
unfolding text_eq
find_day up [] = []
find_day up (d ∷ ds) = let rest = find_day up ds in if text_eq up d then d else rest

abbrev named_day : Text → Text
named_day s = if length s == 3 then find_day (upper s) days else []

unfoldable pub parse_dow : Text → Text
unfolding find_day
parse_dow (c ∷ []) =
    if leb b'0' c && leb c b'6' then get_or days (c - b'0') [] else named_day (c ∷ [])
parse_dow s = named_day s

-- `"%02d"` of a number below 100.
abbrev pub two_digits : ℕ → Text
two_digits n = (b'0' + n / 10) ∷ (b'0' + n % 10) ∷ []

abbrev pub fmt_time : (hh mm : ℕ) → Text
fmt_time hh mm = two_digits hh ++ b':' ∷ two_digits mm

-- `std::to_string` of a number below 10000.
abbrev pub to_string : ℕ → Text
to_string n =
    if ltb n 10
    then (b'0' + n) ∷ []
    else if ltb n 100
    then two_digits n
    else if ltb n 1000
    then (b'0' + n / 100) ∷ two_digits (n % 100)
    else two_digits (n / 100) ++ two_digits (n % 100)

-- `t.args` with an empty error, or `t.error` without arguments.
pub data Translation : Type 0 where
  args : List Text → Translation
  error : Text → Translation

abbrev pub star : Text
star = codes "*"

abbrev pub is_star : Text → Bool
is_star t = text_eq t star

abbrev hour_error : Text → Translation
hour_error f_hr = error (codes "hour field must be a literal 0-23 (got '" ++ f_hr ++ codes "')")

abbrev pub step_args : Option ℕ → Translation
step_args none = error (codes "minute step must be 1..1439")
step_args (some n) = args (codes "/SC" ∷ codes "MINUTE" ∷ codes "/MO" ∷ to_string n ∷ [])

abbrev pub hourly_args : ℕ → Translation
hourly_args mm =
    args (codes "/SC" ∷ codes "HOURLY" ∷ codes "/MO" ∷ codes "1" ∷ codes "/ST" ∷ fmt_time 0 mm ∷ [])

abbrev pub weekly_args : (f_hr f_dow : Text) (mm : ℕ) → Option ℕ → (day : Text) → Translation
weekly_args f_hr f_dow mm none day = hour_error f_hr
weekly_args f_hr f_dow mm (some hh) day =
    if is_empty day
    then error (codes "day-of-week must be 0-6 or SUN..SAT (got '" ++ f_dow ++ codes "')")
    else args (codes "/SC" ∷ codes "WEEKLY" ∷ codes "/D" ∷ day ∷ codes "/ST" ∷ fmt_time hh mm ∷ [])

abbrev pub daily_args : (f_hr : Text) (mm : ℕ) → Option ℕ → Translation
daily_args f_hr mm none = hour_error f_hr
daily_args f_hr mm (some hh) =
    args (codes "/SC" ∷ codes "DAILY" ∷ codes "/MO" ∷ codes "1" ∷ codes "/ST" ∷ fmt_time hh mm ∷ [])

abbrev pub monthly_args : (f_hr f_dom : Text) (mm : ℕ) → Option ℕ → Option ℕ → Translation
monthly_args f_hr f_dom mm none dom = hour_error f_hr
monthly_args f_hr f_dom mm (some hh) none =
    error (codes "day-of-month must be 1-31 (got '" ++ f_dom ++ codes "')")
monthly_args f_hr f_dom mm (some hh) (some dom) =
    args (
      codes "/SC"
      ∷ codes "MONTHLY"
      ∷ codes "/D"
      ∷ to_string dom
      ∷ codes "/ST"
      ∷ fmt_time hh mm
      ∷ [])

abbrev pub unsupported : Translation
unsupported = error (
    codes
      "this cron shape isn't supported on Windows yet; supported: '* * * * *', '*/N * * * *', 'M * * * *', 'M H * * *', 'M H * * D', 'M H DOM * *'")

-- What follows once the minute field is a literal.
unfoldable pub translate_at : (f_min f_hr f_dom f_dow : Text) → Option ℕ → Translation
unfolding text_eq parse_int_in_range parse_dow
translate_at f_min f_hr f_dom f_dow none =
    error (codes "minute field must be a literal 0-59 or '*/N' (got '" ++ f_min ++ codes "')")
translate_at f_min f_hr f_dom f_dow (some mm) =
    if is_star f_hr && is_star f_dom && is_star f_dow
    then hourly_args mm
    else if not (is_star f_hr) && is_star f_dom && not (is_star f_dow)
    then weekly_args f_hr f_dow mm (parse_int_in_range f_hr 0 23) (parse_dow f_dow)
    else if not (is_star f_hr) && is_star f_dom && is_star f_dow
    then daily_args f_hr mm (parse_int_in_range f_hr 0 23)
    else if not (is_star f_hr) && not (is_star f_dom) && is_star f_dow
    then monthly_args f_hr f_dom mm (parse_int_in_range f_hr 0 23) (parse_int_in_range f_dom 1 31)
    else unsupported

-- `f_min.size() > 2 && f_min.compare(0, 2, "*/") == 0`.
abbrev pub is_step : Text → Bool
is_step f_min = ltb 2 (length f_min) && text_eq (take 2 f_min) (codes "*/")

unfoldable pub translate_fields : (f_min f_hr f_dom f_mon f_dow : Text) → Translation
unfolding text_eq parse_int_in_range translate_at
translate_fields f_min f_hr f_dom f_mon f_dow =
    if not (is_star f_mon)
    then error
        (codes "month restrictions are not supported on Windows yet (month field must be '*')")
    else if is_star f_min && is_star f_hr && is_star f_dom && is_star f_dow
    then args (codes "/SC" ∷ codes "MINUTE" ∷ codes "/MO" ∷ codes "1" ∷ [])
    else if is_step f_min && is_star f_hr && is_star f_dom && is_star f_dow
    then step_args (parse_int_in_range (drop 2 f_min) 1 1439)
    else translate_at f_min f_hr f_dom f_dow (parse_int_in_range f_min 0 59)

-- The test of the number of fields.
abbrev pub translate_list : List Text → Translation
translate_list (f_min ∷ f_hr ∷ f_dom ∷ f_mon ∷ f_dow ∷ []) =
    translate_fields f_min f_hr f_dom f_mon f_dow
translate_list (a ∷ b ∷ c ∷ d ∷ e ∷ f ∷ fs) =
    error (codes "extra fields after dow are not supported on Windows (use 5-field cron only)")
translate_list _ = error (codes "schedule must have 5 fields (minute hour dom month dow)")

unfoldable pub translate : Text → Translation
unfolding split_from translate_fields
translate cron_expr = translate_list (split_fields cron_expr)
