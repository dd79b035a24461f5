-- ===== src/Llrp/Client/Channels.antt =====
-- Reply channels over every run of a client: Go panics where a channel is closed twice or gets a message
-- after it was closed.
use device_rfid_llrp_go.Prelude.{
  ℕ, ◌+◌, ◌≤◌, ◌≡◌, refl, Bool, true, false, Option, none, some, List, [], ◌∷◌, arith, ◌==◌, length,
  leb, ltb, Bool-cases, inl, inr, take,
}
use device_rfid_llrp_go.Llrp.Header.{Header}
use device_rfid_llrp_go.Llrp.Messages.{Message, Payload, max_buffered_payload_sz}
use device_rfid_llrp_go.Llrp.Client.{
  Client, Handler, Handlers, new_client, lookup, delete, write_message, payload_written, with_id,
  await_reply, handle_request, ack_message, handle_ack, cancel, close_client, handler_for, dispatch,
  handle_unread, run_any, run_handler, reply, pass_to_handler,
}
use device_rfid_llrp_go.Llrp.Client.Maps.{one_if, count, awaits, awaits-delete, awaits-lookup}

unfoldable pub replies_on : ℕ → List (ℕ × Message) → ℕ
replies_on x [] = 0
replies_on x ((ch, m) ∷ log) = one_if (ch == x) + replies_on x log

-- A channel is awaited once or closed once, not both; one that is yet to be made is neither; and a
-- message goes only to a channel that is closed with it.
pub record IsSafe (c : Client) : Type 0 where
  pub once : (x : ℕ) → count x c.closed + awaits x c.awaiting ≤ 1
  pub fresh : (x : ℕ) → c.next_chan ≤ x → count x c.closed + awaits x c.awaiting ≡ 0
  pub answered : (x : ℕ) → replies_on x c.delivered ≤ count x c.closed

-- The steps of a client, of either coordinator or of a sender.
pub data Step (hs : Handlers) : Client → Client → Type 0 where
  request :
      (c : Client) (m : Message) (wants_reply : Bool) → Step hs c (handle_request c m wants_reply).0
  ack : (c : Client) → Step hs c (handle_ack c c.ack_queue).0
  receive :
      (c : Client) (hdr : Header) (bytes : List ℕ) → Step hs c (pass_to_handler hs c hdr bytes).0
  give_up : (c : Client) (mid : ℕ) → Step hs c (cancel c mid)
  shut : (c : Client) → Step hs c (close_client c).0

pub data Run (hs : Handlers) (version : ℕ) : Client → Type 0 where
  start : Run hs version (new_client version)
  step : (c d : Client) → Run hs version c → Step hs c d → Run hs version d

-- The state that matters for channels is the same.
abbrev SameChannels : Client → Client → Type 0
SameChannels c d =
    (d.awaiting ≡ c.awaiting)
    × (d.next_chan ≡ c.next_chan)
    × (d.delivered ≡ c.delivered)
    × (d.closed ≡ c.closed)

write_message-SameChannels : (c : Client) (m : Message) → SameChannels c (write_message c m).0
unfolding write_message payload_written
write_message-SameChannels c m = ground arith

run_any-SameChannels :
    (h : Option Handler) (c : Client) (hdr : Header) → SameChannels c (run_any h c hdr)
unfolding run_any run_handler
run_any-SameChannels h c hdr = ground arith

SameChannels-IsSafe : (c d : Client) → SameChannels c d → IsSafe c → IsSafe d
SameChannels-IsSafe c d (e1, e2, e3, e4) v = record {
  once = λ x. rw (e1, e4) (v.once x);
  fresh = λ x h. rw (e1, e4) (v.fresh x (rw (← e2) h));
  answered = λ x. rw (e3, e4) (v.answered x);
}

await_reply-IsSafe : (c : Client) (id : ℕ) → IsSafe c → IsSafe (await_reply c id)
unfolding await_reply awaits
await_reply-IsSafe c id v = record {
  once = λ x. ground (arith, v.once x, v.fresh x, awaits-delete x id c.awaiting);
  fresh = λ x h. ground (arith, v.fresh x, awaits-delete x id c.awaiting);
  answered = v.answered;
}

-- The entry of an ID is taken out, and its channel is closed, with a message or without.
closed-IsSafe :
    (c : Client) (id ch : ℕ)
    → lookup id c.awaiting ≡ some ch
    → IsSafe c
    → IsSafe (record c { closed = ch ∷ c.closed; awaiting = delete id c.awaiting })
unfolding count
closed-IsSafe c id ch e v = record {
  once = λ x. omega (arith, v.once x, awaits-lookup x id ch c.awaiting e);
  fresh = λ x h. omega (arith, v.fresh x h, awaits-lookup x id ch c.awaiting e);
  answered = λ x. omega (arith, v.answered x);
}

reply-IsSafe :
    (c : Client) (id ch : ℕ) (m : Message)
    → lookup id c.awaiting ≡ some ch
    → IsSafe c
    → IsSafe (reply (record c { awaiting = delete id c.awaiting }) ch m)
unfolding reply count replies_on
reply-IsSafe c id ch m e v = record {
  once = (closed-IsSafe c id ch e v).once;
  fresh = (closed-IsSafe c id ch e v).fresh;
  answered = λ x. omega (arith, v.answered x);
}

delete-IsSafe :
    (c : Client) (id : ℕ) → IsSafe c → IsSafe (record c { awaiting = delete id c.awaiting })
delete-IsSafe c id v = record {
  once = λ x. omega (arith, v.once x, awaits-delete x id c.awaiting);
  fresh = λ x h. omega (arith, v.fresh x h, awaits-delete x id c.awaiting);
  answered = v.answered;
}

with_id-SameChannels : (c : Client) (m : Message) → SameChannels c (with_id c m).0
unfolding with_id
with_id-SameChannels c m = ground arith

handle_request-IsSafe :
    (c : Client) (m : Message) (w : Bool) → IsSafe c → IsSafe (handle_request c m w).0
unfolding handle_request
handle_request-IsSafe c m true v =
    let (c1, m1) = with_id c m in
    SameChannels-IsSafe _ _ (write_message-SameChannels _ m1)
      (await_reply-IsSafe c1 m1.header.id (SameChannels-IsSafe c c1 (with_id-SameChannels c m) v))
handle_request-IsSafe c m false v =
    let (c1, m1) = with_id c m in
    SameChannels-IsSafe _ _ (write_message-SameChannels c1 m1)
      (SameChannels-IsSafe c c1 (with_id-SameChannels c m) v)

handle_ack-IsSafe : (c : Client) (queue : List ℕ) → IsSafe c → IsSafe (handle_ack c queue).0
unfolding handle_ack
handle_ack-IsSafe c [] v = v
handle_ack-IsSafe c (mid ∷ rest) v =
    let d : Client = record c { ack_queue = rest } in
    SameChannels-IsSafe d _ (write_message-SameChannels d (ack_message mid))
      (SameChannels-IsSafe c d (refl, refl, refl, refl) v)

cancel-IsSafe : (c : Client) (mid : ℕ) → IsSafe c → IsSafe (cancel c mid)
unfolding cancel
cancel-IsSafe c mid v = split (lookup mid c.awaiting) refl
  where
    split :
        (o : Option ℕ)
        → lookup mid c.awaiting ≡ o
        → IsSafe (elim o [
          | none ↦ c
          | some ch ↦ record c { closed = ch ∷ c.closed; awaiting = delete mid c.awaiting }
        ])
    split none e = v
    split (some ch) e = closed-IsSafe c mid ch e v

close_client-IsSafe : (c : Client) → IsSafe c → IsSafe (close_client c).0
unfolding close_client
close_client-IsSafe c v = SameChannels-IsSafe c _ (ground arith) v

handle_unread-SameChannels :
    (h : Option Handler) (c : Client) (hdr : Header) (bytes : List ℕ)
    → SameChannels c (handle_unread h c hdr bytes).0
unfolding handle_unread run_handler
handle_unread-SameChannels h c hdr bytes = ground arith

-- What the rest of `passToHandler` keeps: its client is that with the reply, or that without.
dispatch-IsSafe :
    (h : Option Handler) (o : Option ℕ) (c : Client) (hdr : Header) (bytes : List ℕ)
    → IsSafe c
    → ((ch : ℕ) (m : Message) → o ≡ some ch → IsSafe (reply c ch m))
    → IsSafe (dispatch h o c hdr bytes).0
unfolding dispatch
dispatch-IsSafe none none c hdr bytes v r = v
dispatch-IsSafe (some h) none c hdr bytes v r =
    SameChannels-IsSafe c _ (handle_unread-SameChannels (some h) c hdr bytes) v
dispatch-IsSafe h (some ch) c hdr bytes v r =
    elim (Bool-cases (ltb max_buffered_payload_sz hdr.payload_len)) [
      | inl big ↦ rw big (
          let d = reply c ch (record { payload = Payload.absent; header = hdr }) in
          SameChannels-IsSafe d _ (handle_unread-SameChannels h d hdr bytes) (r ch _ refl))
      | inr small ↦ elim (Bool-cases (leb hdr.payload_len (length bytes))) [
        | inl whole ↦
            rw (small, whole)
              (let d = reply c ch (record {
                payload = Payload.buffer (take hdr.payload_len bytes);
                header = hdr;
              }) in
                SameChannels-IsSafe d _ (run_any-SameChannels h d hdr) (r ch _ refl))
        | inr short ↦ rw (small, short) v
      ]
    ]

Step-IsSafe : (hs : Handlers) (c d : Client) → Step hs c d → IsSafe c → IsSafe d
unfolding pass_to_handler
Step-IsSafe hs c d (request _ m w) v = handle_request-IsSafe c m w v
Step-IsSafe hs c d (ack _) v = handle_ack-IsSafe c c.ack_queue v
Step-IsSafe hs c d (receive _ hdr bytes) v =
    dispatch-IsSafe (handler_for hs hdr.typ) (lookup hdr.id c.awaiting) _ hdr bytes
      (delete-IsSafe c hdr.id v) λ ch m e. reply-IsSafe c hdr.id ch m e v
Step-IsSafe hs c d (give_up _ mid) v = cancel-IsSafe c mid v
Step-IsSafe hs c d (shut _) v = close_client-IsSafe c v

Run-IsSafe : (hs : Handlers) (version : ℕ) (c : Client) → Run hs version c → IsSafe c
unfolding new_client count awaits replies_on
Run-IsSafe hs version c start = record {
  once = λ x. omega arith;
  fresh = λ x h. refl;
  answered = λ x. omega arith;
}
Run-IsSafe hs version c (step b _ r s) = Step-IsSafe hs b c s (Run-IsSafe hs version b r)

-- In every run of a client, whatever the order of its steps, a reply channel gets at most as many messages
-- as it is closed, and is closed or awaited at most once in all: it is never closed twice, nor sent to
-- twice, and one that is still awaited has not been closed.
pub Run-channels :
    (hs : Handlers) (version : ℕ) (c : Client) (x : ℕ)
    → Run hs version c
    → (replies_on x c.delivered ≤ count x c.closed) × (count x c.closed + awaits x c.awaiting ≤ 1)
Run-channels hs version c x r = let v = Run-IsSafe hs version c r in (v.answered x, v.once x)
