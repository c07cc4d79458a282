-- ===== src/Models/Tests.antt =====
-- A book of two bids and one ask (src/models/market_depth.py).
use bharat_ticker.Common.{[], ◌∷◌, arith}
use bharat_ticker.Common.Integers.{ℤ}
use bharat_ticker.Models.Tick.{MarketDepth, Ratio}
use bharat_ticker.Models.Averages.{IsPriced}

abbrev book : MarketDepth
book = record {
  buy =
      record { price = 100; quantity = 3; orders = 1 }
      ∷ record { price = 98; quantity = 1; orders = 1 }
      ∷ [];
  sell = record { price = 103; quantity = 2; orders = 1 } ∷ [];
  total_buy_quantity = 4;
  total_sell_quantity = 6;
}

bids-IsPriced : IsPriced 98 100 book.buy
bids-IsPriced = ((omega arith, omega arith), ((omega arith, omega arith), tt))

asks-IsPriced : IsPriced 103 105 book.sell
asks-IsPriced = ((omega arith, omega arith), tt)

abbrev tilt : Ratio
tilt = record { num = ℤ.negsuc 1; den = 10 }
