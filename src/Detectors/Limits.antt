-- ===== src/Detectors/Limits.antt =====
-- When the detector of services/layer2_anomaly/detectors/ewma_detector.py triggers.
use algo_trading_platform.Base.{
  ◌≡◌, ◌∙◌, refl, sym, ap, arith, Bool, true, false, ◌&&◌, ◌||◌, Option, none, some, List, ltb, leb,
  if◌then◌else◌, if_intro, Bool-cases, inl, inr, ◌+◌, String,
}
use algo_trading_platform.Float.{Float, IsOrdered, nought, minimum}
use algo_trading_platform.Detectors.{
  EwmaChannel, EwmaDetector, min_samples, triggered_result, normal_result,
}
use algo_trading_platform.Detectors.Drift.{
  control_limit, channel_score, update_channel, update_ewma,
}

-- The signs of the results that the score is computed from, and the order of the literals 0.25, 0.49, 0.5
-- and 0.95. A comparison with NaN is false, so a bound that another number exceeds is finite; what exceeds it
-- may be infinite.
pub record HasSigns (F : Type 0) ⦃fl : Float F⦄ : Type 0 where
  pub excess_positive :
      (bound a : F)
      → fl.lt nought bound ≡ true
      → fl.lt bound a ≡ true
      → fl.le nought (fl.div (fl.sub a bound) bound) ≡ true
  pub halved_positive :
      (a : F) → fl.le nought a ≡ true → fl.le nought (fl.mul (fl.decimal 5 1) a) ≡ true
  pub added_to_half :
      (a : F) → fl.le nought a ≡ true → fl.le (fl.decimal 5 1) (fl.add (fl.decimal 5 1) a) ≡ true
  pub half_below_cap : fl.le (fl.decimal 5 1) (fl.decimal 95 2) ≡ true
  pub quiet_below_half : fl.le (fl.decimal 5 1) (fl.decimal 49 2) ≡ false
  pub quiet_number : fl.le (fl.decimal 49 2) (fl.decimal 49 2) ≡ true
  pub warm_below_half : fl.le (fl.decimal 5 1) (fl.decimal 25 2) ≡ false
  pub warm_number : fl.le (fl.decimal 25 2) (fl.decimal 25 2) ≡ true

module _ {F : Type 0} ⦃fl : Float F⦄ where
  abbrev pub is_beyond : Bool → F → Option F → Bool
  is_beyond ready control none = false
  is_beyond ready control (some e) = ready && fl.lt control (fl.abs e)

  -- The channel has its samples and its moving average is outside the control limits.
  abbrev pub is_outside : (sqrt : F → F) → EwmaChannel F → Bool
  is_outside sqrt c = is_beyond (leb min_samples c.ticks) (control_limit sqrt c) c.ewma

  module _ (ordered : IsOrdered F) (signs : HasSigns F) where
    abbrev half : F
    half = fl.decimal 5 1

    minimum-number :
        (cap x : F) → fl.le cap cap ≡ true → fl.le (minimum cap x) (minimum cap x) ≡ true
    minimum-number cap x number =
        if_intro (λ m. fl.le m m ≡ true) (fl.lt x cap)
          (λ below. (ordered.refl_of_le x cap (ordered.le_of_lt x cap below)).0) (λ _. number)

    minimum-above :
        (low cap x : F)
        → fl.le low cap ≡ true
        → fl.le low x ≡ true
        → fl.le low (minimum cap x) ≡ true
    minimum-above low cap x a b = if_intro (λ m. fl.le low m ≡ true) (fl.lt x cap) (λ _. b) (λ _. a)

    minimum-below : (low cap x : F) → fl.le low cap ≡ false → fl.le low (minimum cap x) ≡ false
    minimum-below low cap x miss =
        if_intro (λ m. fl.le low m ≡ false) (fl.lt x cap)
          (λ below. elim (Bool-cases (fl.le low x)) [
            | inl above ↦ cc (miss, ordered.le_trans low x cap above (ordered.le_of_lt x cap below))
            | inr other ↦ other
          ])
          (λ _. miss)

    -- A channel's score reaches 0.5 exactly outside the control limits.
    channel_score-half :
        (control e : F)
        → fl.lt nought control ≡ true
        → (fl.le half (channel_score control e) ≡ fl.lt control (fl.abs e))
          × (fl.le (channel_score control e) (channel_score control e) ≡ true)
    unfolding channel_score
    channel_score-half control e positive = elim (Bool-cases (fl.lt control (fl.abs e))) [
      | inl out ↦
          let excess = fl.div (fl.sub (fl.abs e) control) control in
          let above =
            signs.halved_positive excess (signs.excess_positive control (fl.abs e) positive out) in
          let cap_number = (ordered.refl_of_le _ _ signs.half_below_cap).1 in
          rw out (
            minimum-above half (fl.decimal 95 2) _ signs.half_below_cap
                (signs.added_to_half _ above),
            minimum-number (fl.decimal 95 2) _ cap_number,
          )
      | inr within ↦ rw within (
        minimum-below half (fl.decimal 49 2) _ signs.quiet_below_half,
        minimum-number (fl.decimal 49 2) _ signs.quiet_number,
      )
    ]

    not_ready : (control : F) (e : Option F) → is_beyond false control e ≡ false
    not_ready control none = refl
    not_ready control (some e) = refl

    when_ready : {ready : Bool} (x : Bool) → ready ≡ true → x ≡ (ready && x)
    when_ready {ready} x e = ap (λ b. b && x) (sym e)

    or_false : (b : Bool) → b ≡ (b || false)
    or_false true = refl
    or_false false = refl

    result_triggered :
        (b : Bool) (x : F) (loud : String)
        → (if b then triggered_result x loud else normal_result x).triggered ≡ b
    result_triggered true x loud = refl
    result_triggered false x loud = refl

    -- The greater of two numbers reaches what one of them reaches.
    reaches-either :
        (low a b : F)
        → fl.le a a ≡ true
        → fl.le b b ≡ true
        → fl.le low (if fl.le a b then b else a) ≡ (fl.le low a || fl.le low b)
    reaches-either low a b number_a number_b = elim (Bool-cases (fl.le a b)) [
      | inl less ↦ rw less (elim (Bool-cases (fl.le low a)) [
        | inl x ↦ rw (x, ordered.le_trans low a b x less) refl
        | inr x ↦ rw x refl
      ])
      | inr other ↦
          let more : fl.le b a ≡ true = elim (Bool-cases (fl.lt a b)) [
            | inl below ↦ cc (other, ordered.le_of_lt a b below)
            | inr above ↦ ordered.le_of_not_lt a b number_a number_b above
          ] in
          rw other (elim (Bool-cases (fl.le low b)) [
            | inl x ↦ rw (x, ordered.le_trans low b a x more) refl
            | inr x ↦ rw x (or_false (fl.le low a))
          ])
    ]

    module _ (mean stdev : List F → F) (sqrt : F → F) where
      update_channel-half :
          (value : F) (c : EwmaChannel F)
          → fl.lt nought (control_limit sqrt c) ≡ true
          → let (next, score) = update_channel mean stdev sqrt value c in
            (fl.le half score ≡ is_outside sqrt next) × (fl.le score score ≡ true)
      unfolding update_channel
      update_channel-half value c positive =
          if_intro
            (λ (r : EwmaChannel F × F).
              (fl.le half r.1 ≡ is_outside sqrt r.0) × (fl.le r.1 r.1 ≡ true))
            (ltb (c.ticks + 1) min_samples)
            (λ warm.
              let early : leb min_samples (c.ticks + 1) ≡ false = ground (arith, warm) in
              (
                signs.warm_below_half
                    ∙ sym (
                        ap (λ b. is_beyond b (control_limit sqrt c) c.ewma) early
                        ∙ not_ready (control_limit sqrt c) c.ewma),
                signs.warm_number,
              ))
            (λ later.
              let ready : leb min_samples (c.ticks + 1) ≡ true = ground (arith, later) in
              let (same, number) = channel_score-half (control_limit sqrt c) _ positive in
              (same ∙ when_ready _ ready, number))

      -- With floats that are ordered away from NaN and whose results have the signs of `HasSigns`, which
      -- admits infinite values, and with positive control limits, the EWMA detector triggers exactly when,
      -- after the update, a channel has its 30 samples and the magnitude of its moving average is above its
      -- control limit.
      pub update_ewma_triggers :
          (price spread : F) (d : EwmaDetector F)
          → fl.lt nought (control_limit sqrt d.price_ch) ≡ true
          → fl.lt nought (control_limit sqrt d.spread_ch) ≡ true
          → let (next, result) = update_ewma mean stdev sqrt price spread d in
            result.triggered ≡ (is_outside sqrt next.price_ch || is_outside sqrt next.spread_ch)
      unfolding update_ewma
      update_ewma_triggers price spread d positive_price positive_spread =
          let (same_price, number_price) = update_channel-half price d.price_ch positive_price in
          let (same_spread, number_spread) =
            update_channel-half spread d.spread_ch positive_spread in
          let p = (update_channel mean stdev sqrt price d.price_ch).1 in
          let s = (update_channel mean stdev sqrt spread d.spread_ch).1 in
          result_triggered (fl.le half (if fl.le p s then s else p)) _ _
          ∙ reaches-either half p s number_price number_spread
          ∙ λ i. same_price i || same_spread i
