-- ===== src/Server/Unmatched.antt =====
-- An order of cpp_ob_broker.py that the book of order_book_server.cpp cannot match at once.
use flow_manager.OrderBook.Adding.{add_order as add_to_book}
use flow_manager.Base.{
  Bool, Bool-cases, Option, String, [], ap, arith, false, if◌then◌else◌, inl, inr, nat_eq, none,
  not, refl, some, string_eq, subst, sym, true, ℕ, ◌==◌, ◌∙◌, ◌≡◌,
}
use flow_manager.CppBroker.{
  CppOrderBookBroker, Network, Outcome, Request, ServerReply, add_order, answer, is_ok,
}
use flow_manager.CppBroker.Acceptance.{IsAccepted, submit_order_cpp-IsAccepted}
use flow_manager.CppBroker.Deadlock.{IsDeadlocked, submit_order_cpp-IsDeadlocked}
use flow_manager.CppBroker.Requests.{IsReachable, next_id}
use flow_manager.CppBroker.Submit.{submit_order_cpp}
use flow_manager.Dict.{lookup}
use flow_manager.Float.{Float, truncate}
use flow_manager.Int.{ℤ}
use flow_manager.OrderBook.{Order, OrderBook, can_match, make_order, order_is_filled}
use flow_manager.OrderBook.Adding.{is_fak, rest_order}
use flow_manager.OrderBook.Additions.{Session, Session-Answers, add_order_early}
use flow_manager.OrderBook.RoundTrip.{cancel_book_order-add_order}
use flow_manager.Server.{
  add_reply, exchange_with, fills_of, plain_reply, requested_order, status_in_book,
}

-- What `submit_order` sends.
abbrev pub request_of :
    (String → String) → String → String → ℤ → Bool → String → ℤ → CppOrderBookBroker → Request
request_of upper client_id symbol quantity buying type whole b =
    add_order client_id (next_id b) symbol (if buying then "Buy" else "Sell") whole quantity
      (if upper type == "GTC" then "GoodTillCancel" else "FillAndKill")

abbrev pub order_sent :
    (ℤ → ℕ) → (ℕ → ℕ) → (String → String) → ℤ → Bool → String → ℤ → CppOrderBookBroker → Order
order_sent get_u32 get_u64 upper quantity buying type whole b =
    requested_order get_u32 get_u64 (next_id b) (if buying then "Buy" else "Sell") whole quantity
      (if upper type == "GTC" then "GoodTillCancel" else "FillAndKill")

-- The answer to an order that is not matched.
abbrev quiet_reply : String → ServerReply
quiet_reply status = record (plain_reply "OK") {
  trades = some [];
  order_final_status_in_book = some status;
}

exchange_unmatched :
    (get_u32 : ℤ → ℕ) (get_u64 : ℕ → ℕ) (client_id symbol side type : String) (id : ℕ)
    (price quantity : ℤ) (book after : OrderBook) (o : Order) (status : String)
    → requested_order get_u32 get_u64 id side price quantity type ≡ o
    → add_to_book o book ≡ some (record { trades = []; order = some o; book = after })
    → status_in_book o ≡ status
    → exchange_with get_u32 get_u64 book (add_order client_id id symbol side price quantity type)
      ≡ answer (quiet_reply status)
unfolding add_reply fills_of
exchange_unmatched get_u32 get_u64 client_id symbol side type id price quantity book after o status
      e f g =
    unfold exchange_with in rw (e, exchange_with, f, exchange_with, add_reply, g)

kind_of_order :
    (get_u32 : ℤ → ℕ) (get_u64 : ℕ → ℕ) (upper : String → String) (quantity : ℤ) (buying : Bool)
    (type : String) (whole : ℤ) (b : CppOrderBookBroker)
    → is_fak (order_sent get_u32 get_u64 upper quantity buying type whole b)
      ≡ not (upper type == "GTC")
unfolding requested_order make_order is_fak
kind_of_order get_u32 get_u64 upper quantity buying type whole b =
    elim (Bool-cases (upper type == "GTC")) [
      | inl gtc ↦ rw (gtc, is_fak)
      | inr fak ↦ rw (fak, is_fak)
    ]

status_of_unfilled :
    (o : Order)
    → order_is_filled o ≡ false
    → status_in_book o ≡ (if is_fak o then "REJECTED_BY_BOOK" else "WORKING")
unfolding status_in_book
status_of_unfilled o h = rw h

-- How the call of the client ends, for a "GTC" order or for any other.
abbrev pub EndsFor : ℕ → Bool → Outcome (Option ℤ) → Type 0
EndsFor id true r = IsAccepted id r
EndsFor id false r = IsDeadlocked r

module _ (get_u32 : ℤ → ℕ) (get_u64 : ℕ → ℕ) (upper : String → String) (client_id symbol : String)
    (quantity : ℤ) (buying : Bool) (type : String) (price : Float) (whole : ℤ) (net : Network)
    (book : OrderBook) (b : CppOrderBookBroker) (reached : Session book)
    (free : b.is_locked ≡ false) (is_whole : truncate price ≡ some whole) (up : IsReachable net b)
    (answers : net.exchange
      ≡ exchange_with get_u32 get_u64 book
          (request_of upper client_id symbol quantity buying type whole b))
    (unused : lookup
        (order_sent get_u32 get_u64 upper quantity buying type whole b).order_id
        book.orders_map
      ≡ none)
    (more : order_is_filled (order_sent get_u32 get_u64 upper quantity buying type whole b) ≡ false)
    (beyond : can_match
        (order_sent get_u32 get_u64 upper quantity buying type whole b).side
        (order_sent get_u32 get_u64 upper quantity buying type whole b).price
        book
      ≡ false) where
  abbrev sent : Order
  sent = order_sent get_u32 get_u64 upper quantity buying type whole b

  answered_by :
      (after : OrderBook) (status : String)
      → add_to_book sent book ≡ some (record { trades = []; order = some sent; book = after })
      → status_in_book sent ≡ status
      → net.exchange ≡ answer (quiet_reply status)
  answered_by after status e f =
      answers
      ∙ exchange_unmatched get_u32 get_u64 client_id symbol (if buying then "Buy" else "Sell")
          (if upper type == "GTC" then "GoodTillCancel" else "FillAndKill") (next_id b) whole
          quantity book after sent status refl e f

  -- An order of `CppOrderBookBroker` to a server whose book has been reached by additions and
  -- cancellations, when the lock of the client is free, the server can be reached, the price has a
  -- whole part, and the order as the server reads it has a new identifier, a quantity that is not
  -- 0 and a price at which nothing matches: the call returns the next broker identifier and the
  -- lock is free if the type is GTC, and otherwise the client waits for ever for the lock that it
  -- holds itself.
  pub unmatched_order :
      EndsFor
        (next_id b)
        (upper type == "GTC")
        (submit_order_cpp upper client_id symbol quantity buying type (some price) net b)
  unfolding is_ok
  unmatched_order =
      let kind = kind_of_order get_u32 get_u64 upper quantity buying type whole b in
      let status = status_of_unfilled sent more in
      let valid = (Session-Answers reached).0 in
      elim (Bool-cases (upper type == "GTC")) [
        | inl gtc ↦
            let resting : is_fak sent ≡ false = kind ∙ ap not gtc in
            let came =
              answered_by (rest_order sent book) "WORKING"
                (cancel_book_order-add_order sent book valid unused resting beyond).0
                (status ∙ ap (λ x. if x then "REJECTED_BY_BOOK" else "WORKING") resting) in
            ends_for true gtc (
              submit_order_cpp-IsAccepted upper client_id symbol quantity buying type price whole
                net (quiet_reply "WORKING") b free is_whole up came refl tt refl refl)
        | inr other_type ↦
            let killed : is_fak sent ≡ true = kind ∙ ap not other_type in
            let came =
              answered_by book "REJECTED_BY_BOOK"
                (add_order_early sent book unused (ground (arith, killed, beyond)))
                (status ∙ ap (λ x. if x then "REJECTED_BY_BOOK" else "WORKING") killed) in
            ends_for false other_type (
              submit_order_cpp-IsDeadlocked upper client_id symbol quantity buying type price whole
                net (quiet_reply "REJECTED_BY_BOOK") b free is_whole up came refl refl (inl refl))
      ]
    where
      ends_for :
          (gtc : Bool)
          → upper type == "GTC" ≡ gtc
          → EndsFor
              (next_id b)
              gtc
              (submit_order_cpp upper client_id symbol quantity buying type (some price) net b)
          → EndsFor
              (next_id b)
              (upper type == "GTC")
              (submit_order_cpp upper client_id symbol quantity buying type (some price) net b)
      ends_for gtc e =
          subst
            (λ x.
              EndsFor (next_id b) x
                (submit_order_cpp upper client_id symbol quantity buying type (some price) net b))
            (sym e)
