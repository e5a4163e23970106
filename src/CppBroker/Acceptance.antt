-- ===== src/CppBroker/Acceptance.antt =====
-- `submit_order` of cpp_ob_broker.py for an order that the server takes: the lock, and the return.
use flow_manager.Base.{
  All, Bool, Bool-cases, List, Option, Option-cases, String, [], arith, false, get_or,
  if◌then◌else◌, inl, inr, nat_eq, none, refl, some, string_eq, subst, sym, true, ℕ, ◌==◌, ◌∙◌, ◌∷◌,
  ◌≡◌,
}
use flow_manager.Broker.{OrderDetails}
use flow_manager.CppBroker.{
  Action, CppOrderBookBroker, FillInfo, Network, Outcome, ServerReply, add_order, answer, blocked,
  cleanup_order_maps, gets, is_ok, is_text, pure, raised, returned, with_lock, ◌>>=◌, ◌>>◌,
}
use flow_manager.CppBroker.Deadlock.{after_reply_ok, conclude_found}
use flow_manager.CppBroker.Rejections.{cleanup_lem, submit_priced_lem}
use flow_manager.CppBroker.Requests.{
  IsReachable, asked_server, next_id, send_request-answer, with_order,
}
use flow_manager.CppBroker.Submit.{
  accept, book_fill, conclude, conclude_order, is_acknowledged, process_fill_of, process_fills,
  report_fill, submit_order_cpp, submitted,
}
use flow_manager.Dict.{lookup}
use flow_manager.Float.{Float, truncate}
use flow_manager.Int.{leb_ℤ, ltb_ℤ, pos, ℤ, ◌+ℤ◌}

-- The step returns, and the lock is free.
abbrev pub Returns : {A : Type 0} → Outcome A → Type 0
Returns (returned _ b) = b.is_locked ≡ false
Returns (raised _) = ⊥
Returns (blocked _) = ⊥

-- A fill with all the fields that the code reads.
abbrev pub IsWhole : FillInfo → Type 0
IsWhole fill =
    (quantity : ℤ) × (price : ℤ) × (fill.traded_quantity ≡ some quantity)
    × (fill.price ≡ some price)

bind_after {ℓ} :
    {A B : Type 0} (P : Outcome B → Type ℓ) (r : Outcome A) (f : A → Action B)
    → Returns r
    → ((a : A) (b : CppOrderBookBroker) → b.is_locked ≡ false → P (f a b))
    → P (elim r [ returned a b ↦ f a b | raised b ↦ raised b | blocked b ↦ blocked b ])
bind_after P (returned a b) f h k = k a b h
bind_after P (raised b) f h k = absurd h
bind_after P (blocked b) f h k = absurd h

book_fill-Returns :
    (client_id : String) (id : ℕ) (o : OrderDetails) (quantity price : ℤ) (b : CppOrderBookBroker)
    → b.is_locked ≡ false
    → Returns (book_fill client_id id o (some price) quantity b)
unfolding book_fill
book_fill-Returns client_id id o quantity price b free =
    cleaned_or_kept (leb_ℤ o.quantity (o.filled_quantity +ℤ quantity)) _ free
  where
    cleaned_or_kept :
        (complete : Bool) (b' : CppOrderBookBroker)
        → b'.is_locked ≡ false
        → Returns ((if complete then cleanup_order_maps client_id id else pure tt) b')
    cleaned_or_kept true b' h = subst Returns (sym (cleanup_lem client_id id b' h)) refl
    cleaned_or_kept false b' h = h

report_fill-Returns :
    (fill : FillInfo) (id : ℕ) (client_id : Option String) (o : Option OrderDetails)
    (b : CppOrderBookBroker)
    → IsWhole fill
    → b.is_locked ≡ false
    → Returns (report_fill fill id client_id o b)
unfolding report_fill
report_fill-Returns fill id none o b w free = free
report_fill-Returns fill id (some client_id) none b w free = free
report_fill-Returns fill id (some client_id) (some o) b (quantity, price, t, p) free =
    elim (Bool-cases (client_id == "")) [
      | inl e ↦ rw e free
      | inr e ↦ elim (Bool-cases (ltb_ℤ (pos 0) quantity)) [
        | inl some_ ↦ rw (e, t, p, some_) (book_fill-Returns client_id id o quantity price b free)
        | inr zero_ ↦ rw (e, t, zero_) free
      ]
    ]

process_fill_of-Returns :
    (fill : FillInfo) (id : Option ℕ) (b : CppOrderBookBroker)
    → IsWhole fill
    → b.is_locked ≡ false
    → Returns (process_fill_of fill id b)
unfolding process_fill_of
process_fill_of-Returns fill none b w free = rw free refl
process_fill_of-Returns fill (some id) b w free =
    let at_ = lookup id b.broker_to_client_id_map in
    let o = lookup id b.broker_id_to_order_details in
    let looked_up : with_lock {A = Option String × Option OrderDetails}
          (gets λ x. (lookup id x.broker_to_client_id_map, lookup id x.broker_id_to_order_details))
          b
        ≡ returned (at_, o) (record b { is_locked = false }) =
      ground arith in
    rw (looked_up, ◌>>=◌)
      (report_fill-Returns fill id at_ o (record b { is_locked = false }) w refl)

process_fills-Returns :
    (fills : List FillInfo) (b : CppOrderBookBroker)
    → All IsWhole fills
    → b.is_locked ≡ false
    → Returns (process_fills fills b)
unfolding process_fills
process_fills-Returns [] b w free = free
process_fills-Returns (fill ∷ fills) b (w, ws) free =
    bind_after Returns (process_fill_of fill fill.order_id_filled b) (λ _. process_fills fills)
      (process_fill_of-Returns fill fill.order_id_filled b w free)
      (λ _ b' free'. process_fills-Returns fills b' ws free')

conclude_missing :
    (client_id : String) (id : ℕ) (symbol : String) (buying : Bool) (price : Float)
    (s : Option String) (b : CppOrderBookBroker)
    → b.is_locked ≡ false
    → lookup id b.broker_id_to_order_details ≡ none
    → conclude client_id id symbol buying price s b ≡ returned tt (record b { is_locked = false })
unfolding conclude
conclude_missing client_id id symbol buying price s b free missing = ground arith

conclude-Returns :
    (client_id : String) (id : ℕ) (symbol : String) (buying : Bool) (price : Float)
    (s : Option String) (b : CppOrderBookBroker)
    → is_text "FILLED" s ≡ false
    → is_text "REJECTED_BY_BOOK" s ≡ false
    → b.is_locked ≡ false
    → Returns (conclude client_id id symbol buying price s b)
unfolding conclude_order
conclude-Returns client_id id symbol buying price s b f r free =
    elim (Option-cases (lookup id b.broker_id_to_order_details)) [
      | inl e ↦
          subst Returns (sym (conclude_missing client_id id symbol buying price s b free e)) refl
      | inr (o, e) ↦
          subst Returns (sym (conclude_found client_id id symbol buying price s o b free e))
            (elim (Bool-cases (is_acknowledged o.status)) [
              | inl a ↦ rw (f, r, a) refl
              | inr a ↦ rw (f, r, a) refl
            ])
    ]

-- The order has been accepted: its identifier is returned, and the lock is free.
abbrev pub IsAccepted : ℕ → Outcome (Option ℤ) → Type 0
IsAccepted id (returned result b) = (result ≡ some (pos id)) × (b.is_locked ≡ false)
IsAccepted id (raised _) = ⊥
IsAccepted id (blocked _) = ⊥

accept-IsAccepted :
    (client_id : String) (id : ℕ) (symbol : String) (buying : Bool) (price : Float)
    (reply : ServerReply) (b : CppOrderBookBroker)
    → All IsWhole (get_or reply.trades [])
    → is_text "FILLED" reply.order_final_status_in_book ≡ false
    → is_text "REJECTED_BY_BOOK" reply.order_final_status_in_book ≡ false
    → b.is_locked ≡ false
    → IsAccepted id (accept client_id id symbol buying price reply b)
unfolding accept
accept-IsAccepted client_id id symbol buying price reply b w f r free =
    let s = reply.order_final_status_in_book in
    bind_after (IsAccepted id) (process_fills (get_or reply.trades []) _)
      (λ _. conclude client_id id symbol buying price s >> pure (some (pos id)))
      (process_fills-Returns (get_or reply.trades []) _ w free)
      λ _ b' free'.
        bind_after (IsAccepted id) (conclude client_id id symbol buying price s b')
          (λ _. pure (some (pos id)))
          (conclude-Returns client_id id symbol buying price s b' f r free')
          (λ _ b'' free''. (refl, free''))

-- A priced order returns with the next broker identifier and the lock is free, when the lock was
-- free before, the price has a whole part, the server is reachable and answers OK, every trade in
-- the answer has a quantity and a price, and the final status is neither FILLED nor
-- REJECTED_BY_BOOK; the trades may be of any orders.
pub submit_order_cpp-IsAccepted :
    (upper : String → String) (client_id symbol : String) (quantity : ℤ) (buying : Bool)
    (type : String) (price : Float) (whole : ℤ) (net : Network) (reply : ServerReply)
    (b : CppOrderBookBroker)
    → b.is_locked ≡ false
    → truncate price ≡ some whole
    → IsReachable net b
    → net.exchange ≡ answer reply
    → is_ok (some reply) ≡ true
    → All IsWhole (get_or reply.trades [])
    → is_text "FILLED" reply.order_final_status_in_book ≡ false
    → is_text "REJECTED_BY_BOOK" reply.order_final_status_in_book ≡ false
    → IsAccepted
        (next_id b)
        (submit_order_cpp upper client_id symbol quantity buying type (some price) net b)
submit_order_cpp-IsAccepted upper client_id symbol quantity buying type price whole net reply b free
      t up came ok w f r =
    let q =
      add_order client_id (next_id b) symbol (if buying then "Buy" else "Sell") whole quantity
        (if upper type == "GTC" then "GoodTillCancel" else "FillAndKill") in
    let o = submitted client_id (next_id b) symbol quantity buying (upper type) price in
    let b' = asked_server q (with_order client_id o b) in
    subst (IsAccepted (next_id b))
      (sym (
        submit_priced_lem upper client_id symbol quantity buying type price whole net b b'
          (some reply) free t (send_request-answer q net reply (with_order client_id o b) up came)
        ∙ after_reply_ok client_id (next_id b) symbol buying price reply b' ok))
      (accept-IsAccepted client_id (next_id b) symbol buying price reply b' w f r refl)
