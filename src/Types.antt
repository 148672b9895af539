-- ===== src/Types.antt =====
-- include/order_book/types.hpp: sides, order types, trades and orders.
use orderbook_c.Base.{ℕ, ◌%◌, ◌+◌, ◌-◌, ◌^◌}
use orderbook_c.Base.Int.{ℤ}

-- `std::numeric_limits<std::uint64_t>::max() + 1`.
abbrev pub u64_mod : ℕ
u64_mod = 2 ^ 64

-- Unsigned 64-bit `+` and `-`, which wrap.
abbrev pub add64 : ℕ → ℕ → ℕ
add64 a b = (a + b) % u64_mod

abbrev pub sub64 : ℕ → ℕ → ℕ
sub64 a b = (a + u64_mod - b) % u64_mod

pub data Side : Type 0 where
  buy sell : Side

pub data OrderType : Type 0 where
  limit market ioc fok : OrderType

pub record Trade : Type 0 where
  pub maker_id : ℕ
  pub taker_id : ℕ
  pub price : ℤ
  pub qty : ℕ
  pub ts : ℕ

-- An order with the pool slot at which it stands, which is its address. The links `prev` and `next`
-- are the order's place in the list of its price level.
pub record Order : Type 0 where
  pub slot : ℕ
  pub id : ℕ
  pub price : ℤ
  pub qty : ℕ
  pub ts : ℕ
  pub side : Side
  pub type : OrderType
