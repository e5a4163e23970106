-- ===== src/CppBroker/Trades.antt =====
-- The trades in an answer to `submit_order` of cpp_ob_broker.py, and the end of the call.
use flow_manager.Base.{
  Bool, Bool-cases, Option, String, [], ap, arith, false, if_false, if_true, if◌then◌else◌, inl,
  inr, nat_eq, none, refl, some, string_eq, subst, sym, true, ℕ, ◌++◌, ◌==◌, ◌∙◌, ◌∷◌, ◌≡◌,
}
use flow_manager.Broker.{
  OrderDetails, Status, acknowledged, cancelled, filled, new, other, partially_filled, pending_ack,
  pending_cancel, pending_new, rejected, working,
}
use flow_manager.CppBroker.{
  Action, CppOrderBookBroker, FillInfo, Outcome, cleanup_order_maps, gets, pure, returned,
  with_lock, ◌>>=◌,
}
use flow_manager.CppBroker.Rejections.{cleanup_lem}
use flow_manager.CppBroker.Submit.{
  book_fill, fill_confirmation, filled_more, is_filled, process_fill_of, report_fill,
}
use flow_manager.Dict.{erase, insert, lookup, lookup-erase_self, lookup-insert_self}
use flow_manager.Float.{float}
use flow_manager.Int.{leb_ℤ, ltb_ℤ, pos, ℤ, ◌+ℤ◌}

-- The status of an order that is not yet filled completely, after a fill.
unfoldable pub open_status : Status → Status
open_status filled = filled
open_status _ = working

-- What one fill of an order leaves.
pub record IsFilled (client_id : String) (id : ℕ) (o : OrderDetails) (quantity price : ℤ)
    (b : CppOrderBookBroker) (r : Outcome (Unit {0})) : Type 0 where
  pub state : CppOrderBookBroker
  pub result : r ≡ returned tt state
  pub confirmed :
      state.confirmed
      ≡ b.confirmed
        ++ (record {
          order_id = pos id;
          client_order_id = client_id;
          symbol = o.symbol;
          filled_quantity = quantity;
          side_is_buy = o.side_is_buy;
          price = float price;
          status =
              if leb_ℤ o.quantity (o.filled_quantity +ℤ quantity) then filled else partially_filled;
        })
          ∷ []
  pub details : lookup id state.broker_id_to_order_details ≡ (
      if leb_ℤ o.quantity (o.filled_quantity +ℤ quantity)
      then none
      else some (record o {
        filled_quantity = o.filled_quantity +ℤ quantity;
        status = open_status o.status;
      }))
  pub brokers :
      lookup id state.broker_to_client_id_map
      ≡ (if leb_ℤ o.quantity (o.filled_quantity +ℤ quantity) then none else some client_id)
  pub unlocked : state.is_locked ≡ false

open_status-is_filled : (s : Status) → (if is_filled s then s else working) ≡ open_status s
unfolding open_status is_filled
open_status-is_filled pending_new = refl
open_status-is_filled new = refl
open_status-is_filled working = refl
open_status-is_filled pending_ack = refl
open_status-is_filled acknowledged = refl
open_status-is_filled partially_filled = refl
open_status-is_filled pending_cancel = refl
open_status-is_filled filled = refl
open_status-is_filled cancelled = refl
open_status-is_filled rejected = refl
open_status-is_filled (other s) = refl

-- A fill that leaves something to fill.
filled_more_open :
    (quantity : ℤ) (o : OrderDetails)
    → leb_ℤ o.quantity (o.filled_quantity +ℤ quantity) ≡ false
    → filled_more quantity o
      ≡ record o { filled_quantity = o.filled_quantity +ℤ quantity; status = open_status o.status }
unfolding filled_more
filled_more_open quantity o open_ = rw (open_, open_status-is_filled o.status) refl

module _ (fill : FillInfo) (client_id : String) (id : ℕ) (o : OrderDetails) (quantity price : ℤ)
    (b : CppOrderBookBroker) (free : b.is_locked ≡ false)
    (named : lookup id b.broker_to_client_id_map ≡ some client_id)
    (held : lookup id b.broker_id_to_order_details ≡ some o) where
  abbrev filled_book : CppOrderBookBroker
  filled_book = record b {
    is_locked = false;
    broker_id_to_order_details = insert id (filled_more quantity o) b.broker_id_to_order_details;
    confirmed = b.confirmed ++ fill_confirmation client_id id o quantity price ∷ [];
  }

  abbrev complete : Bool
  complete = leb_ℤ o.quantity (o.filled_quantity +ℤ quantity)

  abbrev later : OrderDetails
  later = record o {
    filled_quantity = o.filled_quantity +ℤ quantity;
    status = open_status o.status;
  }

  book_fill_lem :
      book_fill client_id id o (some price) quantity (record b { is_locked = false })
      ≡ (if leb_ℤ o.quantity (o.filled_quantity +ℤ quantity)
            then cleanup_order_maps client_id id
            else pure tt)
          filled_book
  unfolding book_fill
  book_fill_lem = rw held refl

  book_fill-IsFilled :
      IsFilled client_id id o quantity price b
        (book_fill client_id id o (some price) quantity (record b { is_locked = false }))
  unfolding fill_confirmation
  book_fill-IsFilled = elim (Bool-cases (leb_ℤ o.quantity (o.filled_quantity +ℤ quantity))) [
    | inl over ↦ record {
      state = record filled_book {
        client_to_broker_id_map = erase client_id b.client_to_broker_id_map;
        broker_to_client_id_map = erase id b.broker_to_client_id_map;
        broker_id_to_order_details = erase id filled_book.broker_id_to_order_details;
      };
      result =
          book_fill_lem
          ∙ ap (λ (m : Action (Unit {0})). m filled_book)
              (if_true complete (cleanup_order_maps client_id id) (pure tt) over)
          ∙ cleanup_lem client_id id filled_book refl;
      confirmed = refl;
      details =
          lookup-erase_self id filled_book.broker_id_to_order_details
          ∙ sym (if_true complete none (some later) over);
      brokers =
          lookup-erase_self id b.broker_to_client_id_map
          ∙ sym (if_true complete none (some client_id) over);
      unlocked = refl;
    }
    | inr open_ ↦ record {
      state = filled_book;
      result =
          book_fill_lem
          ∙ ap (λ (m : Action (Unit {0})). m filled_book)
              (if_false complete (cleanup_order_maps client_id id) (pure tt) open_);
      confirmed = refl;
      details =
          lookup-insert_self id (filled_more quantity o) b.broker_id_to_order_details
          ∙ ap some (filled_more_open quantity o open_)
          ∙ sym (if_false complete none (some later) open_);
      brokers = named ∙ sym (if_false complete none (some client_id) open_);
      unlocked = refl;
    }
  ]

  module _ (not_empty : (client_id == "") ≡ false) (traded : fill.traded_quantity ≡ some quantity)
      (priced : fill.price ≡ some price) (positive : ltb_ℤ (pos 0) quantity ≡ true) where
    looked_up :
        with_lock {A = Option String × Option OrderDetails}
          (gets λ x. (lookup id x.broker_to_client_id_map, lookup id x.broker_id_to_order_details))
          b
        ≡ returned (some client_id, some o) (record b { is_locked = false })
    looked_up = ground arith

    reported :
        report_fill fill id (some client_id) (some o) (record b { is_locked = false })
        ≡ book_fill client_id id o (some price) quantity (record b { is_locked = false })
    unfolding report_fill
    reported = rw (not_empty, traded, priced, positive) refl

    fill_found :
        process_fill_of fill (some id) b
        ≡ book_fill client_id id o (some price) quantity (record b { is_locked = false })
    unfolding process_fill_of
    fill_found = rw (looked_up, ◌>>=◌) reported

    -- When the lock is free, a fill of positive quantity and with a price, of an order that the
    -- maps hold under a client identifier that is not empty, returns and confirms once, under both
    -- identifiers of the order, with its symbol and side, the quantity and price of the fill, and
    -- the status FILLED if the new total reaches the quantity of the order and PARTIALLY_FILLED
    -- otherwise. In the first case the order is out of both maps of the broker identifier; in the
    -- second it stays there with the new total, as WORKING, or as FILLED if it was. The lock is
    -- free.
    pub process_fill_of-IsFilled :
        IsFilled client_id id o quantity price b (process_fill_of fill (some id) b)
    process_fill_of-IsFilled =
        subst (IsFilled client_id id o quantity price b) (sym fill_found) book_fill-IsFilled
