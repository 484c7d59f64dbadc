-- ===== src/Risk/Gate/Bounds.antt =====
-- The limits that an order approved by services/layer4_risk/engine.py respects.
use algo_trading_platform.Base.{
  ℕ, ◌≡◌, ◌≢◌, true, false, Option, none, some, arith, inl, inr, Bool-cases,
}
use algo_trading_platform.Float.{Float, nought, one, minimum, IsOrdered, IsRounded}
use algo_trading_platform.Schema.{TradeSignal, ApprovedOrder, OrderDirection}
use algo_trading_platform.Risk.{RiskEngine, RiskManagerConfig}
use algo_trading_platform.Risk.Gate.{
  evaluate_signal, count_evaluated, blocked, admit, reject, count_close_all, build_close_all,
  extract_primary_atr, size_trade, approve, refused, sized, compute_stops, is_halted, base_size,
  final_size, unit_loss,
}

module _ {F : Type 0} ⦃fl : Float F⦄ where
  open fl use {add, mul, div, lt, le, is_finite}

  -- What the limits of a configuration are expected to satisfy.
  pub record IsSensible (c : RiskManagerConfig F) : Type 0 where
    pub finite_cap : is_finite c.max_position_size_pct ≡ true
    pub cap_nonneg : le nought c.max_position_size_pct ≡ true
    pub cut_nonneg : le nought c.reduced_state_size_multiplier ≡ true
    pub cut_le_one : le c.reduced_state_size_multiplier one ≡ true
    pub loss_nonneg : le nought c.max_trade_loss_pct ≡ true

  module _ (order_laws : IsOrdered F) (round_laws : IsRounded F) where
    open order_laws use {refl_of_le, le_trans, le_of_lt, le_of_not_lt}
    open round_laws use {mul_shrinks, div_fraction, finite_below}

    minimum_le :
        (a b : F)
        → le nought a ≡ true
        → le nought b ≡ true
        → (le nought (minimum a b) ≡ true) × (le (minimum a b) b ≡ true)
    minimum_le a b ha hb =
        ground
          (arith, refl_of_le nought a ha, refl_of_le nought b hb, le_of_not_lt b a, le_of_lt b a)

    base_size-le :
        (e : RiskEngine F) (sig : TradeSignal F)
        → IsSensible e.config
        → le nought sig.size_pct ≡ true
        → (le nought (base_size e sig) ≡ true)
          × (le (base_size e sig) e.config.max_position_size_pct ≡ true)
    unfolding base_size
    base_size-le e sig c h =
        let m : F = minimum sig.size_pct e.config.max_position_size_pct in
        let (low, high) = minimum_le sig.size_pct e.config.max_position_size_pct h c.cap_nonneg in
        let cut =
          mul_shrinks m e.config.reduced_state_size_multiplier
            (finite_below m _ low high c.finite_cap) low c.cut_nonneg c.cut_le_one in
        ground (
          arith,
          cut.0,
          cut.1,
          low,
          high,
          le_trans (mul m e.config.reduced_state_size_multiplier) m e.config.max_position_size_pct,
        )

    final_size-le :
        (c : RiskManagerConfig F) (size per_unit : F)
        → IsSensible c
        → le nought size ≡ true
        → is_finite size ≡ true
        → le (final_size c size per_unit) size ≡ true
    unfolding final_size
    final_size-le c size per_unit s low fin =
        elim (Bool-cases (lt c.max_trade_loss_pct (mul size per_unit))) [
          | inl over ↦
              let (q0, q1) =
                div_fraction c.max_trade_loss_pct (mul size per_unit) s.loss_nonneg over in
              rw over
                ((mul_shrinks size (div c.max_trade_loss_pct (mul size per_unit)) fin low q0 q1).1)
          | inr fits ↦ rw fits ((refl_of_le _ _ low).1)
        ]

module _ {F : Type 0} ⦃fl : Float F⦄ (sig : TradeSignal F) (price exposure : F) (now : Option ℕ)
    (e : RiskEngine F) {order : ApprovedOrder F}
    (made : (evaluate_signal sig price exposure now e).1.approved_order ≡ some order) where
  open fl use {add, lt, le}

  approved_size :
      order.direction ≢ OrderDirection.close_all
      → order.size_pct
        ≡ final_size e.config
            (base_size e sig)
            (unit_loss price (elim order.stop_loss_price [ none ↦ price | some stop ↦ stop ]))
  unfolding evaluate_signal count_evaluated blocked admit reject count_close_all build_close_all
      extract_primary_atr size_trade approve refused sized compute_stops base_size
  approved_size trade = ground arith

  pub approved_checks :
      order.direction ≢ OrderDirection.close_all
      → (is_halted e.state.circuit_breaker_state ≡ false)
        × (lt order.trust_score e.config.trust_floor ≡ false)
        × (le price nought ≡ false)
        × (le order.size_pct nought ≡ false)
        × (lt e.config.max_portfolio_exposure_pct order.portfolio_exposure_pct ≡ false)
        × (order.portfolio_exposure_pct ≡ add exposure order.size_pct)
  unfolding evaluate_signal count_evaluated blocked admit reject count_close_all build_close_all
      extract_primary_atr size_trade approve refused sized
  approved_checks trade = ground arith

  -- With floats that are ordered and rounded as in IEEE 754, a finite position cap, caps from zero up, a
  -- REDUCED multiplier from zero to one and a signal size from zero up, an order that is not a CLOSE_ALL
  -- is above zero in size and at most the position cap, does not take the exposure over its
  -- cap, has a trust score that is not below the floor, and was not approved by a HALTED breaker.
  pub approved_within_limits :
      IsOrdered F
      → IsRounded F
      → IsSensible e.config
      → le nought sig.size_pct ≡ true
      → order.direction ≢ OrderDirection.close_all
      → (le order.size_pct e.config.max_position_size_pct ≡ true)
        × (le order.size_pct nought ≡ false)
        × (lt e.config.max_portfolio_exposure_pct (add exposure order.size_pct) ≡ false)
        × (lt order.trust_score e.config.trust_floor ≡ false)
        × (is_halted e.state.circuit_breaker_state ≡ false)
  approved_within_limits ol rl c low trade =
      let base : F = base_size e sig in
      let per_unit : F =
        unit_loss price (elim order.stop_loss_price [ none ↦ price | some stop ↦ stop ]) in
      let (b0, b1) = base_size-le ol rl e sig c low in
      let fin = rl.finite_below base e.config.max_position_size_pct b0 b1 c.finite_cap in
      let shrunk = final_size-le ol rl e.config base per_unit c b0 fin in
      let checks = approved_checks trade in
      (
        rw (approved_size trade) (ol.le_trans _ base _ shrunk b1),
        checks.3,
        rw (checks.5) at checks.4,
        checks.1,
        checks.0,
      )
