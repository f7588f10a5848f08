-- ===== src/Sender/Peer.antt =====
-- The hold-down of the RTCP peer over a run of datagrams.
use bilbycast_rist.Prelude.{
  ℕ, ◌+◌, ◌-◌, ◌<◌, ◌≡◌, ◌≢◌, ◌⊎◌, inl, inr, ◌∙◌, refl, sym, subst, arith, Bool, true, false,
  Option, some, List, [], ◌∷◌, if◌then◌else◌, ltb, Bool-cases,
}
use bilbycast_rist.Guard.{IpAddr, SocketAddr, same_ip, peer_move_allowed, peer_takeover_grace}
use bilbycast_rist.Guard.Takeover.{same_ip_iff}
use bilbycast_rist.Sender.{PeerSlot, admit_rtcp}

-- The datagrams of a run, each with its source and its instant, and the slot after them.
abbrev pub admit_run : PeerSlot → List (SocketAddr × ℕ) → PeerSlot
admit_run slot [] = slot
admit_run slot (e ∷ es) = admit_run (admit_rtcp slot e.0 e.1).0 es

-- The sources of the datagrams that are processed.
abbrev pub accepted : PeerSlot → List (SocketAddr × ℕ) → List SocketAddr
accepted slot [] = []
accepted slot (e ∷ es) =
    let rest = accepted (admit_rtcp slot e.0 e.1).0 es in
    if (admit_rtcp slot e.0 e.1).1 then e.0 ∷ rest else rest

-- The peer at `ip` is never silent for the grace period: between two of its datagrams, the first of
-- them at `live`, others arrive less than that after the first.
abbrev pub KeptAlive : IpAddr → ℕ → List (SocketAddr × ℕ) → Type 0
KeptAlive ip live [] = Unit
KeptAlive ip live (e ∷ es) =
    ((e.0.ip ≡ ip) × KeptAlive ip e.1 es)
    ⊎ ((e.0.ip ≢ ip) × (e.1 < live + peer_takeover_grace) × KeptAlive ip live es)

abbrev pub AllFrom : IpAddr → List SocketAddr → Type 0
AllFrom ip [] = Unit
AllFrom ip (a ∷ as') = (a.ip ≡ ip) × AllFrom ip as'

admit_own :
    (addr from : SocketAddr) (live : Option ℕ) (now : ℕ)
    → from.ip ≡ addr.ip
    → admit_rtcp (record { remote_rtcp_addr = addr; rtcp_peer_live = live }) from now
      ≡ (record { remote_rtcp_addr = from; rtcp_peer_live = some now }, true)
unfolding admit_rtcp peer_move_allowed
admit_own addr from live now e = rw ((same_ip_iff from.ip addr.ip).1 e) refl

admit_foreign :
    (addr from : SocketAddr) (live now : ℕ)
    → from.ip ≢ addr.ip
    → now < live + peer_takeover_grace
    → admit_rtcp (record { remote_rtcp_addr = addr; rtcp_peer_live = some live }) from now
      ≡ (record { remote_rtcp_addr = addr; rtcp_peer_live = some live }, false)
unfolding admit_rtcp peer_move_allowed
admit_foreign addr from live now q h =
    let other : same_ip from.ip addr.ip ≡ false = elim (Bool-cases (same_ip from.ip addr.ip)) [
      | inl t ↦ absurd (q ((same_ip_iff from.ip addr.ip).0 t))
      | inr f ↦ f
    ] in
    let held : ltb (now - live) peer_takeover_grace ≡ true = ground (arith, h) in
    rw (other, held) refl

-- The claim for one more datagram, `r` being what the slot makes of it.
Held : IpAddr → SocketAddr → List (SocketAddr × ℕ) → PeerSlot × Bool → Type 0
Held ip from es r =
    ((admit_run r.0 es).remote_rtcp_addr.ip ≡ ip)
    × AllFrom ip (if r.1 then from ∷ accepted r.0 es else accepted r.0 es)

holds :
    (ip : IpAddr) (addr : SocketAddr) (live : ℕ) (es : List (SocketAddr × ℕ))
    → addr.ip ≡ ip
    → KeptAlive ip live es
    → ((admit_run
          (record { remote_rtcp_addr = addr; rtcp_peer_live = some live })
          es).remote_rtcp_addr.ip
        ≡ ip)
      × AllFrom ip (accepted (record { remote_rtcp_addr = addr; rtcp_peer_live = some live }) es)
unfolding Held
holds ip addr live [] e k = (e, tt)
holds ip addr live (d ∷ es) e (inl k) =
    let rest = holds ip d.0 d.1 es k.0 k.1 in
    subst (Held ip d.0 es) (sym (admit_own addr d.0 (some live) d.1 (k.0 ∙ sym e)))
      (rest.0, (k.0, rest.1))
holds ip addr live (d ∷ es) e (inr k) =
    subst (Held ip d.0 es) (sym (admit_foreign addr d.0 live d.1 (λ f. k.0 (f ∙ e)) k.1))
      (holds ip addr live es e k.2)

-- While a live peer is never silent for the grace period, its slot stays at its address, up to the
-- port, and no datagram from any other address is processed, however many arrive.
pub admit_run-holds :
    (addr : SocketAddr) (live : ℕ) (es : List (SocketAddr × ℕ))
    → KeptAlive addr.ip live es
    → ((admit_run
          (record { remote_rtcp_addr = addr; rtcp_peer_live = some live })
          es).remote_rtcp_addr.ip
        ≡ addr.ip)
      × AllFrom addr.ip
          (accepted (record { remote_rtcp_addr = addr; rtcp_peer_live = some live }) es)
admit_run-holds addr live es k = holds addr.ip addr live es refl k
