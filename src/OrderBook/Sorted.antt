-- ===== src/OrderBook/Sorted.antt =====
-- The invariant of a book: each side strictly sorted from its best price on, no empty level.
use lob_market_maker.Prelude.{◌≡◌, true, false, List, [], ◌∷◌, arith, All, Bool-cases, inl, inr}
use lob_market_maker.Types.{Price, Quantity, Side, buy, sell, Symbol}
use lob_market_maker.Events.{MarketEvent, EventType}
use lob_market_maker.OrderBook.{
  BookLevel, OrderBook, before, is_zero, upsert_levels, erase_levels, create, upsert, erase, clear,
  dispatch, apply,
}
use lob_market_maker.OrderBook.Sides.{
  before_trans, before_total, eq_of_price_eq, upsert-cons_before, upsert-cons_here,
  erase-cons_before, erase-cons_here,
}

abbrev pub After : Side → Price → List BookLevel → Type 0
After s p = All λ l. before s p l.price ≡ true

abbrev pub IsSorted : Side → List BookLevel → Type 0
IsSorted s [] = Unit {0}
IsSorted s (l ∷ ls) = After s l.price ls × IsSorted s ls

abbrev pub NoneEmpty : List BookLevel → Type 0
NoneEmpty = All λ l. is_zero l.quantity ≡ false

pub After-before :
    (s : Side) (p r : Price) (ls : List BookLevel)
    → before s p r ≡ true
    → After s r ls
    → After s p ls
After-before s p r [] h a = tt
After-before s p r (l ∷ ls) h (b, a) = (before_trans s p r l.price h b, After-before s p r ls h a)

module _ (s : Side) (p : Price) (q : Quantity) where
  After-upsert :
      (r : Price) (ls : List BookLevel)
      → before s r p ≡ true
      → After s r ls
      → After s r (upsert_levels ls s p q)
  unfolding upsert_levels
  After-upsert r [] h a = ground arith
  After-upsert r (l ∷ ls) h a = elim (Bool-cases (before s l.price p)) [
    | inl e ↦ rw (upsert-cons_before s l ls p q e) (a.0, After-upsert r ls h a.1)
    | inr e ↦ rw (upsert-cons_here s l ls p q e) (ground arith)
  ]

  pub upsert-IsSorted : (ls : List BookLevel) → IsSorted s ls → IsSorted s (upsert_levels ls s p q)
  unfolding upsert_levels
  upsert-IsSorted [] h = ground arith
  upsert-IsSorted (l ∷ ls) h = elim (Bool-cases (before s l.price p)) [
    | inl e ↦
        rw (upsert-cons_before s l ls p q e) (After-upsert l.price ls e h.0, upsert-IsSorted ls h.1)
    | inr e ↦ rw (upsert-cons_here s l ls p q e) (
        ground (
          arith,
          eq_of_price_eq l.price p,
          before_total s l.price p e,
          After-before s p l.price ls,
        ))
  ]

  upsert-NoneEmpty : (ls : List BookLevel) → NoneEmpty ls → NoneEmpty (upsert_levels ls s p q)
  unfolding upsert_levels
  upsert-NoneEmpty [] h = ground arith
  upsert-NoneEmpty (l ∷ ls) h = elim (Bool-cases (before s l.price p)) [
    | inl e ↦ rw (upsert-cons_before s l ls p q e) (h.0, upsert-NoneEmpty ls h.1)
    | inr e ↦ rw (upsert-cons_here s l ls p q e) (ground arith)
  ]

module _ (s : Side) (p : Price) where
  After-erase : (r : Price) (ls : List BookLevel) → After s r ls → After s r (erase_levels ls s p)
  unfolding erase_levels
  After-erase r [] a = ground arith
  After-erase r (l ∷ ls) a = elim (Bool-cases (before s l.price p)) [
    | inl e ↦ rw (erase-cons_before s l ls p e) (a.0, After-erase r ls a.1)
    | inr e ↦ rw (erase-cons_here s l ls p e) (ground arith)
  ]

  pub erase-IsSorted : (ls : List BookLevel) → IsSorted s ls → IsSorted s (erase_levels ls s p)
  unfolding erase_levels
  erase-IsSorted [] h = ground arith
  erase-IsSorted (l ∷ ls) h = elim (Bool-cases (before s l.price p)) [
    | inl e ↦ rw (erase-cons_before s l ls p e) (After-erase l.price ls h.0, erase-IsSorted ls h.1)
    | inr e ↦ rw (erase-cons_here s l ls p e) (ground arith)
  ]

  erase-NoneEmpty : (ls : List BookLevel) → NoneEmpty ls → NoneEmpty (erase_levels ls s p)
  unfolding erase_levels
  erase-NoneEmpty [] h = ground arith
  erase-NoneEmpty (l ∷ ls) h = elim (Bool-cases (before s l.price p)) [
    | inl e ↦ rw (erase-cons_before s l ls p e) (h.0, erase-NoneEmpty ls h.1)
    | inr e ↦ rw (erase-cons_here s l ls p e) (ground arith)
  ]

pub record IsValid (b : OrderBook) : Type 0 where
  pub bids_sorted : IsSorted buy b.bids
  pub asks_sorted : IsSorted sell b.asks
  pub bids_full : NoneEmpty b.bids
  pub asks_full : NoneEmpty b.asks

pub create-IsValid : (sym : Symbol) → IsValid (create sym)
unfolding create
create-IsValid sym = ground arith

pub clear-IsValid : (b : OrderBook) → IsValid (clear b)
unfolding clear
clear-IsValid b = ground arith

pub upsert-IsValid :
    (b : OrderBook) (s : Side) (p : Price) (q : Quantity) → IsValid b → IsValid (upsert b s p q)
unfolding upsert
upsert-IsValid b buy p q v = record {
  bids_sorted = upsert-IsSorted buy p q b.bids v.bids_sorted;
  asks_sorted = v.asks_sorted;
  bids_full = upsert-NoneEmpty buy p q b.bids v.bids_full;
  asks_full = v.asks_full;
}
upsert-IsValid b sell p q v = record {
  bids_sorted = v.bids_sorted;
  asks_sorted = upsert-IsSorted sell p q b.asks v.asks_sorted;
  bids_full = v.bids_full;
  asks_full = upsert-NoneEmpty sell p q b.asks v.asks_full;
}

pub erase-IsValid : (b : OrderBook) (s : Side) (p : Price) → IsValid b → IsValid (erase b s p)
unfolding erase
erase-IsValid b buy p v = record {
  bids_sorted = erase-IsSorted buy p b.bids v.bids_sorted;
  asks_sorted = v.asks_sorted;
  bids_full = erase-NoneEmpty buy p b.bids v.bids_full;
  asks_full = v.asks_full;
}
erase-IsValid b sell p v = record {
  bids_sorted = v.bids_sorted;
  asks_sorted = erase-IsSorted sell p b.asks v.asks_sorted;
  bids_full = v.bids_full;
  asks_full = erase-NoneEmpty sell p b.asks v.asks_full;
}

dispatch-IsValid :
    (b : OrderBook) (ev : MarketEvent) (t : EventType) → IsValid b → IsValid (dispatch b ev t)
unfolding dispatch
dispatch-IsValid b ev EventType.quote v = upsert-IsValid b ev.side ev.price ev.quantity v
dispatch-IsValid b ev EventType.book_delete v = erase-IsValid b ev.side ev.price v
dispatch-IsValid b ev EventType.trade v = record {
  bids_sorted = v.bids_sorted;
  asks_sorted = v.asks_sorted;
  bids_full = v.bids_full;
  asks_full = v.asks_full;
}
dispatch-IsValid b ev EventType.snapshot v = clear-IsValid b
dispatch-IsValid b ev EventType.heartbeat v = v
dispatch-IsValid b ev (EventType.unnamed n) v = v

-- Every event keeps both sides of a valid book strictly sorted, best price first, and without levels
-- of quantity zero.
pub apply-IsValid : (b : OrderBook) (ev : MarketEvent) → IsValid b → IsValid (apply b ev)
unfolding apply
apply-IsValid b ev v = dispatch-IsValid _ ev ev.type (record {
  bids_sorted = v.bids_sorted;
  asks_sorted = v.asks_sorted;
  bids_full = v.bids_full;
  asks_full = v.asks_full;
})
