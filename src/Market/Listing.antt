-- ===== src/Market/Listing.antt =====
-- market/contracts.py: how the exchange lists a market. `str.lower` is an argument of the two
-- parsers; the raw payloads that the records carry along are left out.
use kalshi_quant_research.Prelude.{
  ℕ, String, Bool, true, false, Option, none, some, List, if◌then◌else◌, Error, Result, ok, err,
  ◌=?◌, string_key,
}
use kalshi_quant_research.Market.Contracts.{Price, Ticker}

pub data MarketStatus : Type 0 where
  initialized inactive active closed determined disputed : MarketStatus
  amended finalized unknown : MarketStatus

-- the enumeration by its values; any other text is `unknown`
abbrev pub status_of_value : String → MarketStatus
status_of_value v =
    if v =? "initialized"
    then initialized
    else if v =? "inactive"
    then inactive
    else if v =? "active"
    then active
    else if v =? "closed"
    then closed
    else if v =? "determined"
    then determined
    else if v =? "disputed"
    then disputed
    else if v =? "amended"
    then amended
    else if v =? "finalized"
    then finalized
    else unknown

-- `value or ""`
abbrev pub text_of : Option String → String
text_of none = ""
text_of (some v) = v

-- `MarketStatus.parse`
abbrev pub parse_status : (String → String) → Option String → MarketStatus
parse_status lower value = status_of_value (lower (text_of value))

abbrev pub is_tradeable : MarketStatus → Bool
is_tradeable active = true
is_tradeable _ = false

abbrev pub is_terminal : MarketStatus → Bool
is_terminal finalized = true
is_terminal _ = false

pub data SettlementResult : Type 0 where
  yes_result no_result scalar unsettled : SettlementResult

-- `SettlementResult.parse`
abbrev pub parse_result : (String → String) → Option String → Result SettlementResult
parse_result lower value =
    let v = lower (text_of value) in
    if v =? "yes"
    then ok yes_result
    else if v =? "no"
    then ok no_result
    else if v =? "scalar"
    then ok scalar
    else if v =? ""
    then ok unsettled
    else err Error.value_error

pub record PriceRange : Type 0 where
  pub start : Price
  pub end_price : Price
  pub step : Price

pub record Rules : Type 0 where
  pub primary : String
  pub secondary : String
  pub early_close_condition : Option String
  pub can_close_early : Bool

pub record SettlementSource : Type 0 where
  pub name : String
  pub url : Option String

pub record Event : Type 0 where
  pub event_ticker : String
  pub series_ticker : Option String
  pub title : String
  pub sub_title : String
  pub category : Option String
  pub mutually_exclusive : Bool
  pub settlement_sources : List SettlementSource
  pub strike_period : Option String
  pub collateral_return_type : Option String
  pub exchange_index : Option ℕ
  pub market_tickers : List Ticker
