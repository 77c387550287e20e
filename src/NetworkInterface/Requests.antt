-- ===== src/NetworkInterface/Requests.antt =====
-- Datagrams to an unknown address: one ARP request, and a queue until the answer or five seconds.
use computer_networking.Prelude.{
  ℕ, ◌+◌, ◌≤◌, ◌<◌, false, none, some, List, [], ◌∷◌, ◌++◌, append-nil, append_assoc, ◌≡◌, refl,
  sym, ap, ap₂, ◌∙◌, arith, u64, ge→ltb, lt→ltb, add_w,
}
use computer_networking.Maps.{insert, insert-same}
use computer_networking.Ethernet.{type_arp, ethernet_broadcast}
use computer_networking.Arp
use computer_networking.Ipv4.{Ipv4Datagram}
use computer_networking.NetworkInterface.{
  NetworkInterface, Outcome, done, then_do, frame_to, arp_output, arp_request, request_address,
  enqueue, send_datagram, tick,
}

-- The request can always be serialized.
request-output :
    (next_hop : ℕ) (n : NetworkInterface)
    → (payload : List (List ℕ)) × (arp_output (arp_request n next_hop) ≡ some payload)
unfolding Arp.serialize Arp.supported
request-output next_hop n = (_, refl)

-- What happens while the address is awaited: another datagram for it, or time that passes.
pub data Event : Type 0 where
  send : Ipv4Datagram → Event
  wait : ℕ → Event

unfoldable pub run : ℕ → List Event → NetworkInterface → Outcome
run ip [] n = done n
run ip (Event.send d ∷ events) n = then_do (send_datagram d ip n) (run ip events)
run ip (Event.wait ms ∷ events) n = run ip events (tick ms n)

abbrev pub sent : List Event → List Ipv4Datagram
sent [] = []
sent (Event.send d ∷ events) = d ∷ sent events
sent (Event.wait ms ∷ events) = sent events

abbrev pub waited : List Event → ℕ
waited [] = 0
waited (Event.send d ∷ events) = waited events
waited (Event.wait ms ∷ events) = ms + waited events

-- Where `next_hop` has no mapping and no request is pending, the first datagram makes one ARP request for it
-- to the broadcast address, and waits.
pub send_datagram-unknown :
    (d : Ipv4Datagram) (ip : ℕ) (n : NetworkInterface)
    → n.arp_cache ip ≡ none
    → n.pending_arp_requests ip ≡ none
    → (payload : List (List ℕ)) × (arp_output (arp_request n ip) ≡ some payload)
      × (send_datagram d ip n ≡ record {
        interface = record n {
          pending_arp_requests = insert ip (d ∷ [], 0) n.pending_arp_requests;
        };
        frames = frame_to n ethernet_broadcast type_arp payload ∷ [];
        failed = false;
      })
unfolding send_datagram request_address enqueue then_do
send_datagram-unknown d ip n c p =
    let (payload, e) = request-output ip n in (payload, e, rw (c, p, e) (rw p))

send_datagram-pending :
    (d : Ipv4Datagram) (ip age : ℕ) (queued : List Ipv4Datagram) (n : NetworkInterface)
    → n.arp_cache ip ≡ none
    → n.pending_arp_requests ip ≡ some (queued, age)
    → age ≤ 5000
    → send_datagram d ip n ≡ record {
      interface = record n {
        pending_arp_requests = insert ip (queued ++ d ∷ [], age) n.pending_arp_requests;
      };
      frames = [];
      failed = false;
    }
unfolding send_datagram request_address enqueue then_do
send_datagram-pending d ip age queued n c p h = rw (c, p, ge→ltb 5000 age h) (rw p)

tick-waits :
    (ip age ms : ℕ) (queued : List Ipv4Datagram) (n : NetworkInterface)
    → n.pending_arp_requests ip ≡ some (queued, age)
    → age + ms ≤ 5000
    → (tick ms n).pending_arp_requests ip ≡ some (queued, age + ms)
unfolding tick
tick-waits ip age ms queued n p h =
    rw (p, ge→ltb 5000 (add_w u64 age ms) (omega arith)) (ap (λ a. some (queued, a)) (omega arith))

tick-unknown :
    (ip ms : ℕ) (n : NetworkInterface) → n.arp_cache ip ≡ none → (tick ms n).arp_cache ip ≡ none
unfolding tick
tick-unknown ip ms n c = rw c

tick-expires :
    (ip age ms : ℕ) (queued : List Ipv4Datagram) (n : NetworkInterface)
    → n.pending_arp_requests ip ≡ some (queued, age)
    → 5000 < age + ms
    → age + ms < u64
    → (tick ms n).pending_arp_requests ip ≡ none
unfolding tick
tick-expires ip age ms queued n p h b = rw (p, lt→ltb 5000 (add_w u64 age ms) (omega arith))

-- Where an address has no mapping and a request for it is pending, then over any sequence of
-- datagrams sent to it and of ticks that bring the age of the request to at most 5000 ms, nothing is
-- transmitted, nothing fails, no mapping appears, and all the datagrams wait in order.
pub run-waits :
    (ip age : ℕ) (events : List Event) (queued : List Ipv4Datagram) (n : NetworkInterface)
    → n.arp_cache ip ≡ none
    → n.pending_arp_requests ip ≡ some (queued, age)
    → age + waited events ≤ 5000
    → ((run ip events n).frames ≡ [])
      × ((run ip events n).failed ≡ false)
      × ((run ip events n).interface.arp_cache ip ≡ none)
      × ((run ip events n).interface.pending_arp_requests ip
          ≡ some (queued ++ sent events, age + waited events))
unfolding run then_do
run-waits ip age [] queued n c p h =
    (refl, refl, c, p ∙ ap₂ (λ q a. some (q, a)) (sym (append-nil queued)) (omega arith))
run-waits ip age (Event.send d ∷ events) queued n c p h =
    let later =
      run-waits ip age events (queued ++ d ∷ [])
        (record n {
          pending_arp_requests = insert ip (queued ++ d ∷ [], age) n.pending_arp_requests;
        })
        c (insert-same ip (queued ++ d ∷ [], age) n.pending_arp_requests) h in
    rw (send_datagram-pending d ip age queued n c p (omega arith)) (
      later.0,
      later.1,
      later.2,
      later.3
          ∙ ap (λ q. some (q, age + waited events)) (append_assoc queued (d ∷ []) (sent events)),
    )
run-waits ip age (Event.wait ms ∷ events) queued n c p h =
    let later =
      run-waits ip (age + ms) events queued (tick ms n) (tick-unknown ip ms n c)
        (tick-waits ip age ms queued n p (omega arith)) (omega arith) in
    (later.0, later.1, later.2, later.3 ∙ ap (λ a. some (queued ++ sent events, a)) (omega arith))

-- Where an address has no mapping and a tick brings the age of a pending request to more than 5000
-- ms, and below 2^64, the request and the datagrams that waited for it are dropped, so that the next
-- datagram to the address makes a new broadcast request and waits alone.
pub tick-drops :
    (d : Ipv4Datagram) (ip age ms : ℕ) (queued : List Ipv4Datagram) (n : NetworkInterface)
    → n.arp_cache ip ≡ none
    → n.pending_arp_requests ip ≡ some (queued, age)
    → 5000 < age + ms
    → age + ms < u64
    → (payload : List (List ℕ)) × (arp_output (arp_request n ip) ≡ some payload)
      × ((send_datagram d ip (tick ms n)).frames
          ≡ frame_to n ethernet_broadcast type_arp payload ∷ [])
      × ((send_datagram d ip (tick ms n)).interface.pending_arp_requests ip ≡ some (d ∷ [], 0))
unfolding tick
tick-drops d ip age ms queued n c p h b =
    let (payload, e, r) =
      send_datagram-unknown d ip (tick ms n) (tick-unknown ip ms n c)
        (tick-expires ip age ms queued n p h b) in
    (
      payload,
      e,
      ap (λ o. Outcome.frames o) r,
      ap (λ (o : Outcome). o.interface.pending_arp_requests ip) r
          ∙ insert-same ip (d ∷ [], 0) (tick ms n).pending_arp_requests,
    )
