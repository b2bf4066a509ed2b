-- ===== src/MarketEngine/Words.antt =====
-- src/apps/market_engine.cpp: the strings of the program, as the codes of their characters.
use lob_market_maker.Prelude.{[], ◌∷◌}
use lob_market_maker.CliArgs.{Text}

-- max
abbrev pub max_word : Text
max_word = 109 ∷ 97 ∷ 120 ∷ []

-- mode
abbrev pub mode_key : Text
mode_key = 109 ∷ 111 ∷ 100 ∷ 101 ∷ []

-- replay
abbrev pub replay_word : Text
replay_word = 114 ∷ 101 ∷ 112 ∷ 108 ∷ 97 ∷ 121 ∷ []

-- live
abbrev pub live_word : Text
live_word = 108 ∷ 105 ∷ 118 ∷ 101 ∷ []

-- symbol
abbrev pub symbol_key : Text
symbol_key = 115 ∷ 121 ∷ 109 ∷ 98 ∷ 111 ∷ 108 ∷ []

-- AAPL
abbrev pub aapl : Text
aapl = 65 ∷ 65 ∷ 80 ∷ 76 ∷ []

-- config
abbrev pub config_key : Text
config_key = 99 ∷ 111 ∷ 110 ∷ 102 ∷ 105 ∷ 103 ∷ []

-- data
abbrev pub data_key : Text
data_key = 100 ∷ 97 ∷ 116 ∷ 97 ∷ []

-- speed
abbrev pub speed_key : Text
speed_key = 115 ∷ 112 ∷ 101 ∷ 101 ∷ 100 ∷ []

-- profile-stages
abbrev pub profile_stages_key : Text
profile_stages_key =
    112 ∷ 114 ∷ 111 ∷ 102 ∷ 105 ∷ 108 ∷ 101 ∷ 45 ∷ 115 ∷ 116 ∷ 97 ∷ 103 ∷ 101 ∷ 115 ∷ []

-- duration-sec
abbrev pub duration_key : Text
duration_key = 100 ∷ 117 ∷ 114 ∷ 97 ∷ 116 ∷ 105 ∷ 111 ∷ 110 ∷ 45 ∷ 115 ∷ 101 ∷ 99 ∷ []

-- synthetic-spread
abbrev pub spread_key : Text
spread_key =
    115 ∷ 121 ∷ 110 ∷ 116 ∷ 104 ∷ 101 ∷ 116 ∷ 105 ∷ 99 ∷ 45 ∷ 115 ∷ 112 ∷ 114 ∷ 101 ∷ 97 ∷ 100 ∷ []

-- finnhub_api_key
abbrev pub api_key_key : Text
api_key_key =
    102 ∷ 105 ∷ 110 ∷ 110 ∷ 104 ∷ 117 ∷ 98 ∷ 95 ∷ 97 ∷ 112 ∷ 105 ∷ 95 ∷ 107 ∷ 101 ∷ 121 ∷ []

-- SET_VIA
abbrev pub set_via : Text
set_via = 83 ∷ 69 ∷ 84 ∷ 95 ∷ 86 ∷ 73 ∷ 65 ∷ []

-- config/config.local.json
abbrev pub local_config : Text
local_config =
    99 ∷ 111 ∷ 110 ∷ 102 ∷ 105 ∷ 103 ∷ 47 ∷ 99 ∷ 111 ∷ 110 ∷ 102 ∷ 105 ∷ 103 ∷ 46 ∷ 108 ∷ 111 ∷ 99
    ∷ 97 ∷ 108 ∷ 46 ∷ 106 ∷ 115 ∷ 111 ∷ 110 ∷ []

-- config/config.example.json
abbrev pub example_config : Text
example_config =
    99 ∷ 111 ∷ 110 ∷ 102 ∷ 105 ∷ 103 ∷ 47 ∷ 99 ∷ 111 ∷ 110 ∷ 102 ∷ 105 ∷ 103 ∷ 46 ∷ 101 ∷ 120 ∷ 97
    ∷ 109 ∷ 112 ∷ 108 ∷ 101 ∷ 46 ∷ 106 ∷ 115 ∷ 111 ∷ 110 ∷ []

-- risk
abbrev pub risk_key : Text
risk_key = 114 ∷ 105 ∷ 115 ∷ 107 ∷ []

-- strategy
abbrev pub strategy_key : Text
strategy_key = 115 ∷ 116 ∷ 114 ∷ 97 ∷ 116 ∷ 101 ∷ 103 ∷ 121 ∷ []

-- max_position
abbrev pub key_max_position : Text
key_max_position = 109 ∷ 97 ∷ 120 ∷ 95 ∷ 112 ∷ 111 ∷ 115 ∷ 105 ∷ 116 ∷ 105 ∷ 111 ∷ 110 ∷ []

-- max_order_size
abbrev pub key_max_order_size : Text
key_max_order_size =
    109 ∷ 97 ∷ 120 ∷ 95 ∷ 111 ∷ 114 ∷ 100 ∷ 101 ∷ 114 ∷ 95 ∷ 115 ∷ 105 ∷ 122 ∷ 101 ∷ []

-- max_notional
abbrev pub key_max_notional : Text
key_max_notional = 109 ∷ 97 ∷ 120 ∷ 95 ∷ 110 ∷ 111 ∷ 116 ∷ 105 ∷ 111 ∷ 110 ∷ 97 ∷ 108 ∷ []

-- max_daily_loss
abbrev pub key_max_daily_loss : Text
key_max_daily_loss =
    109 ∷ 97 ∷ 120 ∷ 95 ∷ 100 ∷ 97 ∷ 105 ∷ 108 ∷ 121 ∷ 95 ∷ 108 ∷ 111 ∷ 115 ∷ 115 ∷ []

-- max_open_orders
abbrev pub key_max_open_orders : Text
key_max_open_orders =
    109 ∷ 97 ∷ 120 ∷ 95 ∷ 111 ∷ 112 ∷ 101 ∷ 110 ∷ 95 ∷ 111 ∷ 114 ∷ 100 ∷ 101 ∷ 114 ∷ 115 ∷ []

-- base_half_spread_bps
abbrev pub key_base_half_spread_bps : Text
key_base_half_spread_bps =
    98 ∷ 97 ∷ 115 ∷ 101 ∷ 95 ∷ 104 ∷ 97 ∷ 108 ∷ 102 ∷ 95 ∷ 115 ∷ 112 ∷ 114 ∷ 101 ∷ 97 ∷ 100 ∷ 95
    ∷ 98 ∷ 112 ∷ 115 ∷ []

-- quote_size
abbrev pub key_quote_size : Text
key_quote_size = 113 ∷ 117 ∷ 111 ∷ 116 ∷ 101 ∷ 95 ∷ 115 ∷ 105 ∷ 122 ∷ 101 ∷ []

-- inventory_skew_bps_per_unit
abbrev pub key_inventory_skew_bps_per_unit : Text
key_inventory_skew_bps_per_unit =
    105 ∷ 110 ∷ 118 ∷ 101 ∷ 110 ∷ 116 ∷ 111 ∷ 114 ∷ 121 ∷ 95 ∷ 115 ∷ 107 ∷ 101 ∷ 119 ∷ 95 ∷ 98 ∷ 112
    ∷ 115 ∷ 95 ∷ 112 ∷ 101 ∷ 114 ∷ 95 ∷ 117 ∷ 110 ∷ 105 ∷ 116 ∷ []

-- max_inventory_for_skew
abbrev pub key_max_inventory_for_skew : Text
key_max_inventory_for_skew =
    109 ∷ 97 ∷ 120 ∷ 95 ∷ 105 ∷ 110 ∷ 118 ∷ 101 ∷ 110 ∷ 116 ∷ 111 ∷ 114 ∷ 121 ∷ 95 ∷ 102 ∷ 111 ∷ 114
    ∷ 95 ∷ 115 ∷ 107 ∷ 101 ∷ 119 ∷ []

-- requote_threshold_bps
abbrev pub key_requote_threshold_bps : Text
key_requote_threshold_bps =
    114 ∷ 101 ∷ 113 ∷ 117 ∷ 111 ∷ 116 ∷ 101 ∷ 95 ∷ 116 ∷ 104 ∷ 114 ∷ 101 ∷ 115 ∷ 104 ∷ 111 ∷ 108
    ∷ 100 ∷ 95 ∷ 98 ∷ 112 ∷ 115 ∷ []

-- volatility_spread_multiplier
abbrev pub key_volatility_spread_multiplier : Text
key_volatility_spread_multiplier =
    118 ∷ 111 ∷ 108 ∷ 97 ∷ 116 ∷ 105 ∷ 108 ∷ 105 ∷ 116 ∷ 121 ∷ 95 ∷ 115 ∷ 112 ∷ 114 ∷ 101 ∷ 97 ∷ 100
    ∷ 95 ∷ 109 ∷ 117 ∷ 108 ∷ 116 ∷ 105 ∷ 112 ∷ 108 ∷ 105 ∷ 101 ∷ 114 ∷ []
