-- ===== src/NetworkInterface/Aging.antt =====
-- The life of a learned mapping.
use computer_networking.Prelude.{
  ℕ, ◌+◌, ◌-◌, ◌<◌, true, false, none, some, List, [], ◌∷◌, if◌then◌else◌, ◌≡◌, ◌∙◌, inl, inr,
  Bool-cases, arith, ltb, leb, leb→gt,
}
use computer_networking.Ethernet.{EthernetAddress}
use computer_networking.NetworkInterface.{NetworkInterface, tick}

unfoldable pub ticks : List ℕ → NetworkInterface → NetworkInterface
ticks [] n = n
ticks (ms ∷ later) n = ticks later (tick ms n)

abbrev pub sum : List ℕ → ℕ
sum [] = 0
sum (ms ∷ later) = ms + sum later

ticks-unknown :
    (ip : ℕ) (later : List ℕ) (n : NetworkInterface)
    → n.arp_cache ip ≡ none
    → (ticks later n).arp_cache ip ≡ none
unfolding ticks tick
ticks-unknown ip [] n h = h
ticks-unknown ip (ms ∷ later) n h = ticks-unknown ip later (tick ms n) (rw h)

tick-late :
    (ip ttl ms : ℕ) (address : EthernetAddress) (n : NetworkInterface)
    → n.arp_cache ip ≡ some (address, ttl)
    → leb ttl ms ≡ true
    → (tick ms n).arp_cache ip ≡ none
unfolding tick
tick-late ip ttl ms address n e h = rw (e, h)

tick-early :
    (ip ttl ms : ℕ) (address : EthernetAddress) (n : NetworkInterface)
    → n.arp_cache ip ≡ some (address, ttl)
    → leb ttl ms ≡ false
    → (tick ms n).arp_cache ip ≡ some (address, ttl - ms)
unfolding tick
tick-early ip ttl ms address n e h = rw (e, h)

-- A mapping with more than 0 ms left is kept exactly as long as the ticks, however the time is
-- divided among them, add up to less than that, and what is left is the difference.
pub ticks-age :
    (ip ttl : ℕ) (address : EthernetAddress) (times : List ℕ) (n : NetworkInterface)
    → n.arp_cache ip ≡ some (address, ttl)
    → 0 < ttl
    → (ticks times n).arp_cache ip
      ≡ (if ltb (sum times) ttl then some (address, ttl - sum times) else none)
unfolding ticks
ticks-age ip ttl address [] n e p = e ∙ ground arith
ticks-age ip ttl address (ms ∷ later) n e p = elim (Bool-cases (leb ttl ms)) [
  | inl h ↦ ticks-unknown ip later (tick ms n) (tick-late ip ttl ms address n e h) ∙ ground arith
  | inr h ↦
      ticks-age ip (ttl - ms) address later (tick ms n) (tick-early ip ttl ms address n e h)
        (omega (arith, leb→gt ttl ms h))
      ∙ ground arith
]
