-- ===== src/CppBroker/Deadlock.antt =====
-- `submit_order` of cpp_ob_broker.py and its lock.
use flow_manager.Base.{
  Bool, Bool-cases, Option, String, [], arith, false, get_or, if_true, if◌then◌else◌, inl, inr,
  nat_eq, refl, some, string_eq, subst, sym, true, ℕ, ◌==◌, ◌∙◌, ◌≡◌, ◌⊎◌,
}
use flow_manager.Broker.{OrderDetails, acknowledged}
use flow_manager.CppBroker.{
  Action, CppOrderBookBroker, Network, Outcome, ServerReply, add_order, answer, blocked,
  cleanup_order_maps, get_next_broker_id, get_order_details_cpp, give_back, is_ok, is_text, pure,
  raised, returned, set_status, ◌>>=◌, ◌>>◌,
}
use flow_manager.CppBroker.Cancel.{cancel_order_cpp, find_order}
use flow_manager.CppBroker.Rejections.{submit_priced_lem}
use flow_manager.CppBroker.Requests.{
  IsReachable, asked_server, next_id, send_request-answer, with_order,
}
use flow_manager.CppBroker.Submit.{
  accept, after_reply, conclude, conclude_order, is_filled, process_fills, submit_order_cpp,
  submit_priced, submitted,
}
use flow_manager.Dict.{insert, lookup, lookup-insert_self}
use flow_manager.Float.{Float, truncate}
use flow_manager.Int.{pos, ℤ}

-- The thread waits for a lock that it holds itself.
abbrev pub IsDeadlocked : {A : Type 0} → Outcome A → Type 0
IsDeadlocked (blocked b) = b.is_locked ≡ true
IsDeadlocked (returned _ _) = ⊥
IsDeadlocked (raised _) = ⊥

-- The final statuses that make the thread clean up under the lock.
abbrev pub IsFinal : Option String → Type 0
IsFinal s = (is_text "REJECTED_BY_BOOK" s ≡ true) ⊎ (is_text "FILLED" s ≡ true)

conclude_order_deadlock :
    (client_id : String) (broker_id : ℕ) (symbol : String) (buying : Bool) (price : Float)
    (s : Option String) (o : OrderDetails) (b : CppOrderBookBroker)
    → b.is_locked ≡ true
    → is_filled o.status ≡ false
    → IsFinal s
    → IsDeadlocked (conclude_order client_id broker_id symbol buying price s o b)
unfolding conclude_order cleanup_order_maps
conclude_order_deadlock client_id broker_id symbol buying price s o b held live h =
    elim (Bool-cases (is_text "FILLED" s)) [
      | inl f ↦ rw (f, live, held) refl
      | inr n ↦ elim h [ inl r ↦ rw (n, r, held) refl | inr f ↦ absurd (cc) ]
    ]

give_back_deadlock : {A : Type 0} (r : Outcome A) → IsDeadlocked r → IsDeadlocked (give_back r)
give_back_deadlock (blocked b) h = h
give_back_deadlock (returned a b) h = absurd h
give_back_deadlock (raised b) h = absurd h

bind_deadlock :
    {A B : Type 0} (r : Outcome A) (f : A → Action B)
    → IsDeadlocked r
    → IsDeadlocked {A = B}
        (elim r [ returned a b ↦ f a b | raised b ↦ raised b | blocked b ↦ blocked b ])
bind_deadlock (blocked b) f h = h
bind_deadlock (returned a b) f h = absurd h
bind_deadlock (raised b) f h = absurd h

pub conclude_found :
    (client_id : String) (broker_id : ℕ) (symbol : String) (buying : Bool) (price : Float)
    (s : Option String) (o : OrderDetails) (b : CppOrderBookBroker)
    → b.is_locked ≡ false
    → lookup broker_id b.broker_id_to_order_details ≡ some o
    → conclude client_id broker_id symbol buying price s b
      ≡ give_back (
          conclude_order client_id broker_id symbol buying price s o
            (record b { is_locked = true }))
unfolding conclude
conclude_found client_id broker_id symbol buying price s o b free found = ground arith

conclude_deadlock :
    (client_id : String) (broker_id : ℕ) (symbol : String) (buying : Bool) (price : Float)
    (s : Option String) (o : OrderDetails) (b : CppOrderBookBroker)
    → b.is_locked ≡ false
    → lookup broker_id b.broker_id_to_order_details ≡ some o
    → is_filled o.status ≡ false
    → IsFinal s
    → IsDeadlocked (conclude client_id broker_id symbol buying price s b)
conclude_deadlock client_id broker_id symbol buying price s o b free found live h =
    subst IsDeadlocked
      (sym (conclude_found client_id broker_id symbol buying price s o b free found))
      (give_back_deadlock
        (conclude_order client_id broker_id symbol buying price s o (record b { is_locked = true }))
        (conclude_order_deadlock client_id broker_id symbol buying price s o
          (record b { is_locked = true }) refl live h))

accept_quiet :
    (client_id : String) (broker_id : ℕ) (symbol : String) (buying : Bool) (price : Float)
    (reply : ServerReply) (o : OrderDetails) (b : CppOrderBookBroker)
    → lookup broker_id b.broker_id_to_order_details ≡ some o
    → get_or reply.trades [] ≡ []
    → accept client_id broker_id symbol buying price reply b
      ≡ (conclude client_id broker_id symbol buying price reply.order_final_status_in_book
            >> pure (some (pos broker_id)))
          (record b {
            broker_id_to_order_details =
                insert broker_id (set_status acknowledged o) b.broker_id_to_order_details;
          })
unfolding accept process_fills
accept_quiet client_id broker_id symbol buying price reply o b found quiet = ground arith

accept_deadlock :
    (client_id : String) (broker_id : ℕ) (symbol : String) (buying : Bool) (price : Float)
    (reply : ServerReply) (o : OrderDetails) (b : CppOrderBookBroker)
    → b.is_locked ≡ false
    → lookup broker_id b.broker_id_to_order_details ≡ some o
    → get_or reply.trades [] ≡ []
    → IsFinal reply.order_final_status_in_book
    → IsDeadlocked (accept client_id broker_id symbol buying price reply b)
unfolding is_filled
accept_deadlock client_id broker_id symbol buying price reply o b free found quiet h =
    let b' : CppOrderBookBroker = record b {
      broker_id_to_order_details =
          insert broker_id (set_status acknowledged o) b.broker_id_to_order_details;
    } in
    subst IsDeadlocked
      (sym (accept_quiet client_id broker_id symbol buying price reply o b found quiet))
      (bind_deadlock
        (conclude client_id broker_id symbol buying price reply.order_final_status_in_book b')
        (λ _. pure (some (pos broker_id)))
        (conclude_deadlock client_id broker_id symbol buying price reply.order_final_status_in_book
          (set_status acknowledged o) b' free
          (lookup-insert_self broker_id (set_status acknowledged o) b.broker_id_to_order_details)
          refl h))

pub after_reply_ok :
    (client_id : String) (broker_id : ℕ) (symbol : String) (buying : Bool) (price : Float)
    (r : ServerReply) (b : CppOrderBookBroker)
    → is_ok (some r) ≡ true
    → after_reply client_id broker_id symbol buying price (some r) b
      ≡ accept client_id broker_id symbol buying price r b
unfolding after_reply
after_reply_ok client_id broker_id symbol buying price r b h = rw (if_true _ _ _ h)

-- A priced order waits for ever for the lock that its own thread holds, when the lock was free
-- before, the price has a whole part, the server is reachable and answers OK, reports no trades,
-- and gives the final status FILLED or REJECTED_BY_BOOK.
pub submit_order_cpp-IsDeadlocked :
    (upper : String → String) (client_id symbol : String) (quantity : ℤ) (buying : Bool)
    (type : String) (price : Float) (whole : ℤ) (net : Network) (reply : ServerReply)
    (b : CppOrderBookBroker)
    → b.is_locked ≡ false
    → truncate price ≡ some whole
    → IsReachable net b
    → net.exchange ≡ answer reply
    → is_ok (some reply) ≡ true
    → get_or reply.trades [] ≡ []
    → IsFinal reply.order_final_status_in_book
    → IsDeadlocked (submit_order_cpp upper client_id symbol quantity buying type (some price) net b)
submit_order_cpp-IsDeadlocked upper client_id symbol quantity buying type price whole net reply b
      free t up came ok quiet h =
    let o = submitted client_id (next_id b) symbol quantity buying (upper type) price in
    let q =
      add_order client_id (next_id b) symbol (if buying then "Buy" else "Sell") whole quantity
        (if upper type == "GTC" then "GoodTillCancel" else "FillAndKill") in
    let b' = asked_server q (with_order client_id o b) in
    subst IsDeadlocked
      (sym (
        submit_priced_lem upper client_id symbol quantity buying type price whole net b b'
          (some reply) free t (send_request-answer q net reply (with_order client_id o b) up came)
        ∙ after_reply_ok client_id (next_id b) symbol buying price reply b' ok))
      (accept_deadlock client_id (next_id b) symbol buying price reply o b' refl
        (lookup-insert_self (next_id b) o b.broker_id_to_order_details) quiet h)

get_next_broker_id_held :
    (b : CppOrderBookBroker) → b.is_locked ≡ true → get_next_broker_id b ≡ blocked b
unfolding get_next_broker_id
get_next_broker_id_held b held = ground arith

find_order_held :
    (client_id : String) (b : CppOrderBookBroker)
    → b.is_locked ≡ true
    → find_order client_id b ≡ blocked b
unfolding find_order
find_order_held client_id b held = ground arith

-- While the lock is held, an order query, a cancellation and a submission at a price all wait, and
-- change nothing.
pub locked_blocks :
    (upper : String → String) (client_id symbol : String) (quantity : ℤ) (buying : Bool)
    (type : String) (price : Float) (net : Network) (b : CppOrderBookBroker)
    → b.is_locked ≡ true
    → (get_order_details_cpp client_id b ≡ blocked b)
      × (cancel_order_cpp client_id net b ≡ blocked b)
      × (submit_order_cpp upper client_id symbol quantity buying type (some price) net b
          ≡ blocked b)
unfolding get_order_details_cpp cancel_order_cpp submit_order_cpp submit_priced
locked_blocks upper client_id symbol quantity buying type price net b held = (
  ground arith,
  rw (find_order_held client_id b held, cancel_order_cpp, ◌>>=◌),
  rw (get_next_broker_id_held b held, submit_order_cpp, submit_priced, ◌>>=◌),
)
