-- ===== src/Arbitrage/Detector/Witnesses.antt =====
-- A scan of one crossed book, for the theorem on the detector.
use kalshi_quant_research.Prelude.{
  String, ◌≡◌, Bool, true, false, none, [], ◌∷◌, length, All, nat_key, string_key,
}
use Prim.Native.String.{compare}
use Prim.Native.Nat.{lt, eq, gt}
use kalshi_quant_research.Market.Fees.{FeeBook, Rounding}
use kalshi_quant_research.Market.OrderBook.{OrderBook}
use kalshi_quant_research.Market.Relationships.{complement_of}
use kalshi_quant_research.Arbitrage.Execution.{Books}
use kalshi_quant_research.Arbitrage.Detector.{RelationSpec, DetectorParams}
use kalshi_quant_research.Arbitrage.Detector.Scan.{detect}
use kalshi_quant_research.Arbitrage.Detector.Account.{IsFunnel, IsViolation, detect_accounts}

-- YES is offered at 50 cents, NO at 40.
abbrev crossed_book : OrderBook
crossed_book = record {
  ticker = "A";
  yes_bids = (6000, 300) ∷ [];
  no_bids = (5000, 100) ∷ [];
  last_seq = none;
  last_ts = none;
}

abbrev books : Books
books = ("A", crossed_book) ∷ []

abbrev free : FeeBook
free = record {
  by_series = [];
  default = record {
    fee_type = "quadratic";
    multiplier = record { num = 0; den = 1 };
    rounding = Rounding.exact_6dp;
    known = true;
  };
}

abbrev params : DetectorParams
params = record {
  fees = free;
  lot = 100;
  min_qty = 100;
  target = 100;
  max_size = none;
  min_level = 1;
}

abbrev spec : RelationSpec
spec = record {
  relation = complement_of "A";
  level = 3;
  event_ticker = "E";
  series = "S";
  close_time = none;
  evidence = [];
  assumptions = [];
}

abbrev text_below : String → String → Bool
text_below a b = elim (compare a b) [ lt ↦ true | eq ↦ false | gt ↦ false ]

detect_accounts_example :
    IsFunnel 0 (detect text_below books params 7 (spec ∷ spec ∷ [])).1
    × ((detect text_below books params 7 (spec ∷ spec ∷ [])).1.displayed
        ≡ length (detect text_below books params 7 (spec ∷ spec ∷ [])).0)
    × All
        (IsViolation (spec ∷ spec ∷ []) books params)
        (detect text_below books params 7 (spec ∷ spec ∷ [])).0
detect_accounts_example = detect_accounts (spec ∷ spec ∷ []) text_below books params 7
