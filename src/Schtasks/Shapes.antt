-- ===== src/Schtasks/Shapes.antt =====
-- Which cron expressions are translated, and to what.
use server_mcp_bridge.Base.{
  ℕ, ◌≡◌, refl, ◌∙◌, ap, true, false, ◌&&◌, Option, none, some, List, [], ◌∷◌, ◌++◌, arith, Text,
  codes, text_eq, text_eq_iff, text_eq→eq, is_empty, drop, Bool-cases, inl, inr,
}
use server_mcp_bridge.Schtasks.{
  parse_int_in_range, parse_dow, fmt_time, to_string, args, star, is_star, step_args, hourly_args,
  weekly_args, daily_args, monthly_args, translate_at, is_step, translate_fields,
}
use server_mcp_bridge.Schtasks.Numbers.{IsNumber, parse_int_in_range_iff}

-- The shapes that the header file lists, with the arguments of each.
pub data Shape (f_min f_hr f_dom f_dow : Text) (v : List Text) : Type 0 where
  every_minute :
      f_min ≡ star
      → f_hr ≡ star
      → f_dom ≡ star
      → f_dow ≡ star
      → v ≡ codes "/SC" ∷ codes "MINUTE" ∷ codes "/MO" ∷ codes "1" ∷ []
      → Shape f_min f_hr f_dom f_dow v
  every_minutes :
      {digits : Text} {n : ℕ}
      → f_min ≡ codes "*/" ++ digits
      → IsNumber digits 1 1439 n
      → f_hr ≡ star
      → f_dom ≡ star
      → f_dow ≡ star
      → v ≡ codes "/SC" ∷ codes "MINUTE" ∷ codes "/MO" ∷ to_string n ∷ []
      → Shape f_min f_hr f_dom f_dow v
  hourly :
      {mm : ℕ}
      → IsNumber f_min 0 59 mm
      → f_hr ≡ star
      → f_dom ≡ star
      → f_dow ≡ star
      → v
        ≡ codes "/SC" ∷ codes "HOURLY" ∷ codes "/MO" ∷ codes "1" ∷ codes "/ST" ∷ fmt_time 0 mm ∷ []
      → Shape f_min f_hr f_dom f_dow v
  daily :
      {hh mm : ℕ}
      → IsNumber f_min 0 59 mm
      → IsNumber f_hr 0 23 hh
      → f_dom ≡ star
      → f_dow ≡ star
      → v
        ≡ codes "/SC" ∷ codes "DAILY" ∷ codes "/MO" ∷ codes "1" ∷ codes "/ST" ∷ fmt_time hh mm ∷ []
      → Shape f_min f_hr f_dom f_dow v
  weekly :
      {hh mm : ℕ}
      → IsNumber f_min 0 59 mm
      → IsNumber f_hr 0 23 hh
      → f_dom ≡ star
      → is_empty (parse_dow f_dow) ≡ false
      → v
        ≡ codes "/SC"
          ∷ codes "WEEKLY"
          ∷ codes "/D"
          ∷ parse_dow f_dow
          ∷ codes "/ST"
          ∷ fmt_time hh mm
          ∷ []
      → Shape f_min f_hr f_dom f_dow v
  monthly :
      {hh mm dom : ℕ}
      → IsNumber f_min 0 59 mm
      → IsNumber f_hr 0 23 hh
      → IsNumber f_dom 1 31 dom
      → f_dow ≡ star
      → v
        ≡ codes "/SC"
          ∷ codes "MONTHLY"
          ∷ codes "/D"
          ∷ to_string dom
          ∷ codes "/ST"
          ∷ fmt_time hh mm
          ∷ []
      → Shape f_min f_hr f_dom f_dow v

-- A number is not `*`, nor a step, and `*` is no day.
pub is_star-IsNumber : (t : Text) (lo hi n : ℕ) → IsNumber t lo hi n → is_star t ≡ false
is_star-IsNumber [] lo hi n v = absurd (ground (arith, v.filled))
is_star-IsNumber (c ∷ cs) lo hi n v = unfold text_eq in ground (arith, v.digits)

pub is_step-IsNumber : (t : Text) (lo hi n : ℕ) → IsNumber t lo hi n → is_step t ≡ false
is_step-IsNumber [] lo hi n v = refl
is_step-IsNumber (c ∷ []) lo hi n v = refl
is_step-IsNumber (c ∷ d ∷ cs) lo hi n v = unfold text_eq in ground (arith, v.digits)

no_day : is_empty (parse_dow star) ≡ true
unfolding parse_dow
no_day = refl

pub is_star_of_day : (t : Text) → is_empty (parse_dow t) ≡ false → is_star t ≡ false
is_star_of_day t h = elim (Bool-cases (is_star t)) [
  | inr e ↦ e
  | inl e ↦
      let same : t ≡ star = text_eq→eq t star e in
      cc (ap (λ r. is_empty (parse_dow r)) same ∙ no_day, h)
]

pub is_star_of_star : (t : Text) → t ≡ star → is_star t ≡ true
is_star_of_star t e = (text_eq_iff t star).1 e

-- A step is `*/` and what follows it.
step_shape : (t : Text) → is_step t ≡ true → t ≡ codes "*/" ++ drop 2 t
step_shape [] h = absurd (ground (arith, h))
step_shape (c ∷ []) h = absurd (ground (arith, h))
step_shape (c ∷ d ∷ cs) h =
    let front : c ∷ d ∷ [] ≡ codes "*/" = text_eq→eq _ _ (ground (arith, h)) in
    ap (λ r. r ++ cs) front

module _ (f_min f_hr f_dom f_dow : Text) (v : List Text) where
  hourly_case :
      (mm : ℕ)
      → IsNumber f_min 0 59 mm
      → is_star f_hr ≡ true
      → is_star f_dom ≡ true
      → is_star f_dow ≡ true
      → hourly_args mm ≡ args v
      → Shape f_min f_hr f_dom f_dow v
  hourly_case mm n h d w e =
      hourly n (text_eq→eq _ _ h) (text_eq→eq _ _ d) (text_eq→eq _ _ w) (ground (arith, e))

  daily_case :
      (mm : ℕ) (hh : Option ℕ)
      → IsNumber f_min 0 59 mm
      → parse_int_in_range f_hr 0 23 ≡ hh
      → is_star f_dom ≡ true
      → is_star f_dow ≡ true
      → daily_args f_hr mm hh ≡ args v
      → Shape f_min f_hr f_dom f_dow v
  daily_case mm none n h d w e = absurd (ground (arith, e))
  daily_case mm (some hh) n h d w e =
      daily n ((parse_int_in_range_iff f_hr 0 23 hh (omega arith)).0 h) (text_eq→eq _ _ d)
        (text_eq→eq _ _ w) (ground (arith, e))

  weekly_case :
      (mm : ℕ) (hh : Option ℕ)
      → IsNumber f_min 0 59 mm
      → parse_int_in_range f_hr 0 23 ≡ hh
      → is_star f_dom ≡ true
      → weekly_args f_hr f_dow mm hh (parse_dow f_dow) ≡ args v
      → Shape f_min f_hr f_dom f_dow v
  weekly_case mm none n h d e = absurd (ground (arith, e))
  weekly_case mm (some hh) n h d e =
      weekly n ((parse_int_in_range_iff f_hr 0 23 hh (omega arith)).0 h) (text_eq→eq _ _ d)
        (ground (arith, e)) (ground (arith, e))

  monthly_case :
      (mm : ℕ) (hh dom : Option ℕ)
      → IsNumber f_min 0 59 mm
      → parse_int_in_range f_hr 0 23 ≡ hh
      → parse_int_in_range f_dom 1 31 ≡ dom
      → is_star f_dow ≡ true
      → monthly_args f_hr f_dom mm hh dom ≡ args v
      → Shape f_min f_hr f_dom f_dow v
  monthly_case mm none dom n h d w e = absurd (ground (arith, e))
  monthly_case mm (some hh) none n h d w e = absurd (ground (arith, e))
  monthly_case mm (some hh) (some dom) n h d w e =
      monthly n ((parse_int_in_range_iff f_hr 0 23 hh (omega arith)).0 h)
        ((parse_int_in_range_iff f_dom 1 31 dom (omega arith)).0 d) (text_eq→eq _ _ w)
        (ground (arith, e))

  at_case :
      (mm : Option ℕ)
      → parse_int_in_range f_min 0 59 ≡ mm
      → translate_at f_min f_hr f_dom f_dow mm ≡ args v
      → Shape f_min f_hr f_dom f_dow v
  unfolding translate_at
  at_case none p e = absurd (ground (arith, e))
  at_case (some mm) p e =
      let n = (parse_int_in_range_iff f_min 0 59 mm (omega arith)).0 p in
      elim (Bool-cases (is_star f_hr)) [
        | inl h ↦ elim (Bool-cases (is_star f_dom && is_star f_dow)) [
          | inl dw ↦
              hourly_case mm n h (ground (arith, dw)) (ground (arith, dw))
                (ground (arith, e, h, dw))
          | inr dw ↦ absurd (ground (arith, e, h, dw))
        ]
        | inr h ↦ elim (Bool-cases (is_star f_dom)) [
          | inl d ↦ elim (Bool-cases (is_star f_dow)) [
            | inl w ↦ daily_case mm _ n refl d w (ground (arith, e, h, d, w))
            | inr w ↦ weekly_case mm _ n refl d (ground (arith, e, h, d, w))
          ]
          | inr d ↦ elim (Bool-cases (is_star f_dow)) [
            | inl w ↦ monthly_case mm _ _ n refl refl w (ground (arith, e, h, d, w))
            | inr w ↦ absurd (ground (arith, e, h, d, w))
          ]
        ]
      ]

  step_case :
      (n : Option ℕ)
      → is_step f_min ≡ true
      → parse_int_in_range (drop 2 f_min) 1 1439 ≡ n
      → is_star f_hr ≡ true
      → is_star f_dom ≡ true
      → is_star f_dow ≡ true
      → step_args n ≡ args v
      → Shape f_min f_hr f_dom f_dow v
  step_case none s p h d w e = absurd (ground (arith, e))
  step_case (some n) s p h d w e =
      every_minutes (step_shape f_min s)
        ((parse_int_in_range_iff (drop 2 f_min) 1 1439 n (omega arith)).0 p) (text_eq→eq _ _ h)
        (text_eq→eq _ _ d) (text_eq→eq _ _ w) (ground (arith, e))

  pub translated-Shape :
      translate_fields f_min f_hr f_dom star f_dow ≡ args v → Shape f_min f_hr f_dom f_dow v
  unfolding translate_fields
  translated-Shape e = elim (Bool-cases (is_star f_hr && is_star f_dom && is_star f_dow)) [
    | inr r ↦ at_case _ refl (ground (arith, e, r))
    | inl r ↦ elim (Bool-cases (is_star f_min)) [
      | inl m ↦
          every_minute (text_eq→eq _ _ m) (text_eq→eq _ _ (ground (arith, r)))
            (text_eq→eq _ _ (ground (arith, r))) (text_eq→eq _ _ (ground (arith, r)))
            (ground (arith, e, m, r))
      | inr m ↦ elim (Bool-cases (is_step f_min)) [
        | inl s ↦
            step_case _ s refl (ground (arith, r)) (ground (arith, r)) (ground (arith, r))
              (ground (arith, e, m, s, r))
        | inr s ↦ at_case _ refl (ground (arith, e, m, s, r))
      ]
    ]
  ]
