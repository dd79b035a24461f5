-- ===== src/Llrp/Client/Framing.antt =====
-- `passToHandler` and the bytes of the connection: the next header stands right behind the payload.
use device_rfid_llrp_go.Prelude.{
  take-append, length-append, sym, take, ◌++◌, ℕ, zero, suc, ◌-◌, ◌≤◌, ◌<◌, ◌≡◌, ◌↔◌, refl, ap, ◌∙◌,
  min, true, false, Option, none, some, List, [], ◌∷◌, arith, length, drop, drop-drop,
}
use device_rfid_llrp_go.Llrp.Header.{Header}
use device_rfid_llrp_go.Llrp.Client.{
  run_any, run_handler, reply, Client, Handler, Handlers, lookup, handler_for, dispatch,
  handle_unread, bytes_read, read_and_drain, pass_to_handler,
}

-- However much a handler reads, the payload is gone from the connection after it.
read_and_drain-drop :
    (h : Handler) (hdr : Header) (bytes : List ℕ)
    → read_and_drain h hdr bytes ≡ drop hdr.payload_len bytes
unfolding read_and_drain
read_and_drain-drop h hdr bytes =
    let n = min (bytes_read h hdr bytes) hdr.payload_len in
    drop-drop (hdr.payload_len - n) n bytes
    ∙ ap (λ (t : ℕ). drop t bytes) {y = hdr.payload_len} (omega arith)

dispatch_rest :
    (h : Option Handler) (o : Option ℕ) (c : Client) (hdr : Header) (bytes : List ℕ)
    → hdr.payload_len ≤ length bytes
    → ((dispatch h o c hdr bytes).1 ≡ drop hdr.payload_len bytes)
      × ((dispatch h o c hdr bytes).2 ≡ false)
unfolding dispatch handle_unread
dispatch_rest none none c hdr bytes le = ground arith
dispatch_rest (some h) none c hdr bytes le = (read_and_drain-drop h hdr bytes, refl)
dispatch_rest none (some ch) c hdr bytes le = ground arith
dispatch_rest (some h) (some ch) c hdr bytes le = ground (arith, read_and_drain-drop h hdr bytes)

-- If the payload arrives in full, `passToHandler` takes exactly its bytes off the connection and returns no
-- error, whoever awaits the message and whatever the handlers read of it.
pub pass_to_handler_rest :
    (hs : Handlers) (c : Client) (hdr : Header) (bytes : List ℕ)
    → hdr.payload_len ≤ length bytes
    → ((pass_to_handler hs c hdr bytes).1 ≡ drop hdr.payload_len bytes)
      × ((pass_to_handler hs c hdr bytes).2 ≡ false)
unfolding pass_to_handler
pass_to_handler_rest hs c hdr bytes le = dispatch_rest _ _ _ hdr bytes le

drop_short : (n : ℕ) (xs : List ℕ) → length xs < n → drop n xs ≡ []
drop_short zero xs h = absurd (omega arith)
drop_short (suc n) [] h = refl
drop_short (suc n) (x ∷ xs) h = drop_short n xs (omega arith)

dispatch_short :
    (h : Option Handler) (o : Option ℕ) (c : Client) (hdr : Header) (bytes : List ℕ)
    → length bytes < hdr.payload_len
    → ((dispatch h o c hdr bytes).1 ≡ [])
      × (((dispatch h o c hdr bytes).2 ≡ true) ↔ ((h ≡ none) × (o ≡ none)))
unfolding dispatch handle_unread
dispatch_short none none c hdr bytes lt = ground (arith, drop_short hdr.payload_len bytes lt)
dispatch_short (some h) none c hdr bytes lt =
    ground (arith, read_and_drain-drop h hdr bytes, drop_short hdr.payload_len bytes lt)
dispatch_short none (some ch) c hdr bytes lt = ground (arith, drop_short hdr.payload_len bytes lt)
dispatch_short (some h) (some ch) c hdr bytes lt =
    ground (arith, read_and_drain-drop h hdr bytes, drop_short hdr.payload_len bytes lt)

-- If the connection ends inside a payload, nothing is left on it, and `passToHandler` returns an error
-- exactly for a message that nobody awaits and no handler takes: in every other case the end goes
-- unreported.
pub pass_to_handler_short :
    (hs : Handlers) (c : Client) (hdr : Header) (bytes : List ℕ)
    → length bytes < hdr.payload_len
    → ((pass_to_handler hs c hdr bytes).1 ≡ [])
      × (((pass_to_handler hs c hdr bytes).2 ≡ true)
          ↔ ((handler_for hs hdr.typ ≡ none) × (lookup hdr.id c.awaiting ≡ none)))
unfolding pass_to_handler
pass_to_handler_short hs c hdr bytes lt = dispatch_short _ _ _ hdr bytes lt

take_all : (n : ℕ) (xs : List ℕ) → n ≡ length xs → take n xs ≡ xs
take_all zero [] h = refl
take_all zero (x ∷ xs) h = absurd (omega arith)
take_all (suc n) [] h = absurd (omega arith)
take_all (suc n) (x ∷ xs) h = ap (λ t. x ∷ t) (take_all n xs (omega arith))

take_front : (n : ℕ) (xs ys : List ℕ) → n ≡ length xs → take n (xs ++ ys) ≡ take n xs
take_front n xs ys h =
    ap (λ (k : ℕ). take k (xs ++ ys)) h ∙ take-append xs ys ∙ sym (take_all n xs h)

dispatch_whole :
    (h : Option Handler) (o : Option ℕ) (c : Client) (hdr : Header) (bytes rest : List ℕ)
    → hdr.payload_len ≡ length bytes
    → (dispatch h o c hdr (bytes ++ rest)).0 ≡ (dispatch h o c hdr bytes).0
unfolding dispatch handle_unread
dispatch_whole none none c hdr bytes rest e = refl
dispatch_whole (some h) none c hdr bytes rest e = refl
dispatch_whole none (some ch) c hdr bytes rest e =
    ground (arith, take_front hdr.payload_len bytes rest e, length-append bytes rest)
dispatch_whole (some h) (some ch) c hdr bytes rest e =
    ground (arith, take_front hdr.payload_len bytes rest e, length-append bytes rest)

-- What stands behind the payload does not matter to the client.
pub pass_to_handler_whole :
    (hs : Handlers) (c : Client) (hdr : Header) (bytes rest : List ℕ)
    → hdr.payload_len ≡ length bytes
    → (pass_to_handler hs c hdr (bytes ++ rest)).0 ≡ (pass_to_handler hs c hdr bytes).0
unfolding pass_to_handler
pass_to_handler_whole hs c hdr bytes rest e =
    dispatch_whole (handler_for hs hdr.typ) (lookup hdr.id c.awaiting) _ hdr bytes rest e

-- `passToHandler` does not close the client.
pub pass_to_handler-is_closed :
    (hs : Handlers) (c : Client) (hdr : Header) (bytes : List ℕ)
    → (pass_to_handler hs c hdr bytes).0.is_closed ≡ c.is_closed
unfolding pass_to_handler
pass_to_handler-is_closed hs c hdr bytes =
    dispatch-is_closed (handler_for hs hdr.typ) (lookup hdr.id c.awaiting) _ hdr bytes
  where
    dispatch-is_closed :
        (h : Option Handler) (o : Option ℕ) (d : Client) (hdr : Header) (bytes : List ℕ)
        → (dispatch h o d hdr bytes).0.is_closed ≡ d.is_closed
    dispatch-is_closed h o d hdr bytes =
        unfold dispatch handle_unread run_any run_handler reply in ground arith
