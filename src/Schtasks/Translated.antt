-- ===== src/Schtasks/Translated.antt =====
-- The translation, in both directions.
use server_mcp_bridge.Base.{
  ℕ, ◌≡◌, refl, sym, ◌∙◌, ap, ◌↔◌, true, some, List, [], ◌∷◌, ◌++◌, arith, Text, codes, text_eq→eq,
  Bool-cases, inl, inr, ltb, length,
}
use server_mcp_bridge.Schtasks.{
  args, star, is_star, step_args, translate_at, translate_fields, translate, split_fields,
  translate_list,
}
use server_mcp_bridge.Schtasks.Numbers.{IsNumber, parse_int_in_range_iff}
use server_mcp_bridge.Schtasks.Shapes.{
  Shape, every_minute, every_minutes, hourly, daily, weekly, monthly, is_star-IsNumber,
  is_step-IsNumber, is_star_of_day, translated-Shape,
}

step_fields :
    (digits : Text) (n : ℕ)
    → IsNumber digits 1 1439 n
    → translate_fields (codes "*/" ++ digits) star star star star ≡ step_args (some n)
unfolding translate_fields
step_fields [] n k = absurd (ground (arith, k.filled))
step_fields (c ∷ cs) n k =
    let long : ltb 2 (length (codes "*/" ++ c ∷ cs)) ≡ true = ground arith in
    rw (long, (parse_int_in_range_iff (c ∷ cs) 1 1439 n (omega arith)).1 k, translate_fields) refl

module _ (f_min f_hr f_dom f_dow : Text) where
  minute_fields :
      (mm : ℕ)
      → IsNumber f_min 0 59 mm
      → translate_fields f_min f_hr f_dom star f_dow ≡ translate_at f_min f_hr f_dom f_dow (some mm)
  unfolding translate_fields
  minute_fields mm n =
      rw
        (
          is_star-IsNumber f_min 0 59 mm n,
          is_step-IsNumber f_min 0 59 mm n,
          (parse_int_in_range_iff f_min 0 59 mm (omega arith)).1 n,
          translate_fields,
        )
        refl

  Shape-translated :
      (v : List Text)
      → Shape f_min f_hr f_dom f_dow v
      → translate_fields f_min f_hr f_dom star f_dow ≡ args v
  unfolding translate_fields translate_at
  Shape-translated v (every_minute a b c d e) = rw (a, b, c, d, e, translate_fields) refl
  Shape-translated v (every_minutes {digits = digits} {n = n} a k b c d e) =
      rw (a, b, c, d, e) (step_fields digits n k)
  Shape-translated v (hourly {mm = mm} n b c d e) =
      minute_fields mm n ∙ rw (b, c, d, e, translate_at) refl
  Shape-translated v (daily {hh = hh} {mm = mm} n h c d e) =
      minute_fields mm n
      ∙ rw
          (
            c,
            d,
            e,
            is_star-IsNumber f_hr 0 23 hh h,
            (parse_int_in_range_iff f_hr 0 23 hh (omega arith)).1 h,
            translate_at,
          )
          refl
  Shape-translated v (weekly {hh = hh} {mm = mm} n h c d e) =
      minute_fields mm n
      ∙ rw
          (
            c,
            e,
            is_star_of_day f_dow d,
            is_star-IsNumber f_hr 0 23 hh h,
            (parse_int_in_range_iff f_hr 0 23 hh (omega arith)).1 h,
            d,
            translate_at,
          )
          refl
  Shape-translated v (monthly {hh = hh} {mm = mm} {dom = dom} n h c d e) =
      minute_fields mm n
      ∙ rw
          (
            d,
            e,
            is_star-IsNumber f_hr 0 23 hh h,
            is_star-IsNumber f_dom 1 31 dom c,
            (parse_int_in_range_iff f_hr 0 23 hh (omega arith)).1 h,
            (parse_int_in_range_iff f_dom 1 31 dom (omega arith)).1 c,
            translate_at,
          )
          refl

month_lem :
    (f_min f_hr f_dom f_mon f_dow : Text) (v : List Text)
    → translate_fields f_min f_hr f_dom f_mon f_dow ≡ args v
    → f_mon ≡ star
unfolding translate_fields
month_lem f_min f_hr f_dom f_mon f_dow v e = elim (Bool-cases (is_star f_mon)) [
  | inl m ↦ text_eq→eq f_mon star m
  | inr m ↦ absurd (ground (arith, e, m))
]

-- An expression of five fields is translated, to the arguments `v`, exactly when its month is `*` and
-- its other fields have one of the six shapes, with those arguments: nothing else is accepted, and
-- every number in the arguments is the one in the expression and in its range.
pub translate_iff :
    (cron_expr f_min f_hr f_dom f_mon f_dow : Text) (v : List Text)
    → split_fields cron_expr ≡ f_min ∷ f_hr ∷ f_dom ∷ f_mon ∷ f_dow ∷ []
    → (translate cron_expr ≡ args v) ↔ ((f_mon ≡ star) × Shape f_min f_hr f_dom f_dow v)
unfolding translate
translate_iff cron_expr f_min f_hr f_dom f_mon f_dow v h = (forth, back)
  where
    five : translate cron_expr ≡ translate_fields f_min f_hr f_dom f_mon f_dow
    five = ap translate_list h

    forth : translate cron_expr ≡ args v → (f_mon ≡ star) × Shape f_min f_hr f_dom f_dow v
    forth e =
        let month : f_mon ≡ star = month_lem f_min f_hr f_dom f_mon f_dow v (sym five ∙ e) in
        (
          month,
          translated-Shape f_min f_hr f_dom f_dow v
              (ap (λ m. translate_fields f_min f_hr f_dom m f_dow) (sym month) ∙ sym five ∙ e),
        )

    back : (f_mon ≡ star) × Shape f_min f_hr f_dom f_dow v → translate cron_expr ≡ args v
    back (month, s) =
        five
        ∙ ap (λ m. translate_fields f_min f_hr f_dom m f_dow) month
        ∙ Shape-translated f_min f_hr f_dom f_dow v s
