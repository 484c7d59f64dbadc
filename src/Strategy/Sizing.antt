-- ===== src/Strategy/Sizing.antt =====
-- services/layer3_strategy/sizing.py: `size_trade_signal`.
pub mod Range
mod Tests
use algo_trading_platform.Base.{Bool, true, false, ◌||◌, if◌then◌else◌}
use algo_trading_platform.Float.{Float, nought}
use algo_trading_platform.Schema.{SystemState, ConfluenceLevel, TradeSignal, is_hold}
use algo_trading_platform.Strategy.{clip01}

pub record PositionSizingConfig (F : Type 0) : Type 0 where
  pub base_size : F
  pub normal_state_multiplier : F
  pub conservative_state_multiplier : F
  pub full_confluence_multiplier : F
  pub partial_confluence_multiplier : F

pub record PositionSizingResult (F : Type 0) : Type 0 where
  pub signal : TradeSignal F
  pub state_multiplier : F
  pub confluence_multiplier : F
  pub size_pct : F

abbrev is_none_level : ConfluenceLevel → Bool
is_none_level ConfluenceLevel.nil = true
is_none_level _ = false

module _ {F : Type 0} ⦃fl : Float F⦄ where
  open fl use {decimal, mul}

  abbrev pub default_position_sizing_config : PositionSizingConfig F
  default_position_sizing_config = record {
    base_size = decimal 20 2;
    normal_state_multiplier = decimal 10 1;
    conservative_state_multiplier = decimal 5 1;
    full_confluence_multiplier = decimal 10 1;
    partial_confluence_multiplier = decimal 5 1;
  }

  -- `_state_multiplier`
  state_multiplier_of : SystemState → PositionSizingConfig F → F
  state_multiplier_of SystemState.normal c = c.normal_state_multiplier
  state_multiplier_of SystemState.conservative c = c.conservative_state_multiplier
  state_multiplier_of SystemState.degraded c = nought
  state_multiplier_of SystemState.halt c = nought

  -- `_confluence_multiplier`
  confluence_multiplier_of : ConfluenceLevel → PositionSizingConfig F → F
  confluence_multiplier_of ConfluenceLevel.full c = c.full_confluence_multiplier
  confluence_multiplier_of ConfluenceLevel.partial c = c.partial_confluence_multiplier
  confluence_multiplier_of ConfluenceLevel.nil c = nought

  -- The product that is clipped.
  raw_size : PositionSizingConfig F → TradeSignal F → F
  unfolding state_multiplier_of confluence_multiplier_of
  raw_size c sig =
      mul
        (mul (mul c.base_size (state_multiplier_of sig.system_state c))
          (confluence_multiplier_of sig.confluence c))
        (clip01 sig.signal_strength)

  pub size_trade_signal : PositionSizingConfig F → TradeSignal F → PositionSizingResult F
  unfolding state_multiplier_of confluence_multiplier_of
  size_trade_signal c sig =
      let state = state_multiplier_of sig.system_state c in
      let confluence = confluence_multiplier_of sig.confluence c in
      let size = clip01 (raw_size c sig) in
      if is_hold sig.direction || is_none_level sig.confluence
      then record {
        signal = record sig { size_pct = nought };
        state_multiplier = nought;
        confluence_multiplier = nought;
        size_pct = nought;
      }
      else record {
        signal = record sig { size_pct = size };
        state_multiplier = state;
        confluence_multiplier = confluence;
        size_pct = size;
      }
