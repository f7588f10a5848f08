-- ===== src/Sender/Served.antt =====
-- The walk over the requested numbers, in closed form.
use bilbycast_rist.Prelude.{
  ℕ, zero, suc, ◌+◌, ◌-◌, ◌≤◌, ◌≡◌, refl, sym, subst, arith, Bool, true, false, Option, none, some,
  List, [], ◌∷◌, if◌then◌else◌, ltb, ◌==◌, ◌||◌, length, take, inl, inr, Option-cases,
}
use bilbycast_rist.Guard.{SocketAddr, charge_scan, charge_retx}
use bilbycast_rist.Retransmit.{RetransmitBuffer, get}
use bilbycast_rist.Sender.{Work, retx_copy, send_copy, serve_one, serve_nack_entries}

-- The packets that the ring still holds among the numbers asked for, in their order.
abbrev hit : Option (List ℕ) → List (List ℕ) → List (List ℕ)
hit none rest = rest
hit (some p) rest = p ∷ rest

abbrev pub hits : RetransmitBuffer → List ℕ → List (List ℕ)
hits buf [] = []
hits buf (s ∷ seqs) = hit (get buf s) (hits buf seqs)

pub length-hits : (buf : RetransmitBuffer) (seqs : List ℕ) → length (hits buf seqs) ≤ length seqs
length-hits buf [] = omega arith
length-hits buf (s ∷ seqs) = elim (Option-cases (get buf s)) [
  | inl e ↦ rw e (omega (arith, length-hits buf seqs))
  | inr h ↦ rw h.1 (omega (arith, length-hits buf seqs))
]

scan_granted :
    (k r : ℕ)
    → charge_scan (record { scan = suc k; retx = r }) ≡ (record { scan = k; retx = r }, true)
unfolding charge_scan
scan_granted k r =
    let e : (suc k == 0) ≡ false = ground arith in
    let d : suc k - 1 ≡ k = omega arith in rw (e, d) refl

retx_granted :
    (k r : ℕ)
    → charge_retx (record { scan = k; retx = suc r }) ≡ (record { scan = k; retx = r }, true)
unfolding charge_retx
retx_granted k r =
    let e : (suc r == 0) ≡ false = ground arith in
    let d : suc r - 1 ≡ r = omega arith in rw (e, d) refl

take-nil {ℓ} : {A : Type ℓ} (r : ℕ) → take {A = A} r [] ≡ []
take-nil zero = refl
take-nil (suc r) = refl

module _ {Net : Type 0} (send_to : Net → List ℕ → SocketAddr → Net × Bool)
    (remote : SocketAddr) where
  -- Sending packets one after the other: the network and the count of successes.
  abbrev pub send_all : List (List ℕ) → Net → ℕ → Net × ℕ
  send_all [] net n = (net, n)
  send_all (p ∷ ps) net n =
      let (net', sent) = send_to net (retx_copy p) remote in
      send_all ps net' (if sent then n + 1 else n)

  step_spent :
      (buf : RetransmitBuffer) (s : ℕ) (seqs : List ℕ) (r q n : ℕ) (net : Net)
      → serve_nack_entries send_to remote buf (s ∷ seqs) (record {
        budget = record { scan = 0; retx = r };
        requested = q;
        retransmitted = n;
        net = net;
      })
        ≡ (
          record {
            budget = record { scan = 0; retx = r };
            requested = q;
            retransmitted = n;
            net = net;
          },
          true,
        )
  unfolding serve_nack_entries serve_one charge_scan
  step_spent buf s seqs r q n net = refl

  step_miss :
      (buf : RetransmitBuffer) (s : ℕ) (seqs : List ℕ) (k r q n : ℕ) (net : Net)
      → get buf s ≡ none
      → serve_nack_entries send_to remote buf (s ∷ seqs) (record {
        budget = record { scan = suc k; retx = r };
        requested = q;
        retransmitted = n;
        net = net;
      })
        ≡ serve_nack_entries send_to remote buf seqs (record {
          budget = record { scan = k; retx = r };
          requested = q + 1;
          retransmitted = n;
          net = net;
        })
  unfolding serve_nack_entries serve_one
  step_miss buf s seqs k r q n net e = rw (e, scan_granted k r) refl

  step_full :
      (buf : RetransmitBuffer) (s : ℕ) (seqs : List ℕ) (k q n : ℕ) (net : Net) (p : List ℕ)
      → get buf s ≡ some p
      → serve_nack_entries send_to remote buf (s ∷ seqs) (record {
        budget = record { scan = suc k; retx = 0 };
        requested = q;
        retransmitted = n;
        net = net;
      })
        ≡ (
          record {
            budget = record { scan = k; retx = 0 };
            requested = q + 1;
            retransmitted = n;
            net = net;
          },
          true,
        )
  unfolding serve_nack_entries serve_one charge_retx
  step_full buf s seqs k q n net p e = rw (e, scan_granted k 0) refl

  step_hit :
      (buf : RetransmitBuffer) (s : ℕ) (seqs : List ℕ) (k r q n : ℕ) (net : Net) (p : List ℕ)
      → get buf s ≡ some p
      → serve_nack_entries send_to remote buf (s ∷ seqs) (record {
        budget = record { scan = suc k; retx = suc r };
        requested = q;
        retransmitted = n;
        net = net;
      })
        ≡ serve_nack_entries send_to remote buf seqs (record {
          budget = record { scan = k; retx = r };
          requested = q + 1;
          retransmitted = if (send_to net (retx_copy p) remote).1 then n + 1 else n;
          net = (send_to net (retx_copy p) remote).0;
        })
  unfolding serve_nack_entries serve_one send_copy
  step_hit buf s seqs k r q n net p e = rw (e, scan_granted k (suc r)) (rw (retx_granted k r) refl)

  -- What a walk over `len` numbers leaves behind, where `found` are the packets found among the first
  -- `k` of them.
  abbrev pub Outcome : Work Net × Bool → ℕ → List (List ℕ) → Work Net → Type 0
  Outcome res len found st =
      (res.1 ≡ (ltb st.budget.scan len || ltb st.budget.retx (length found)))
      × ((res.0.net, res.0.retransmitted)
          ≡ send_all (take st.budget.retx found) st.net st.retransmitted)
      × (res.0.requested + res.0.budget.scan ≡ st.requested + st.budget.scan)
      × (res.0.budget.retx ≡ st.budget.retx - length found)

  abbrev at : ℕ → ℕ → ℕ → ℕ → Net → Work Net
  at k r q n net = record {
    budget = record { scan = k; retx = r };
    requested = q;
    retransmitted = n;
    net = net;
  }

  Outcome-nil : (k r q n : ℕ) (net : Net) → Outcome (at k r q n net, false) 0 [] (at k r q n net)
  Outcome-nil k r q n net = (ground arith, rw (take-nil r) refl, refl, omega arith)

  Outcome-spent :
      (len r q n : ℕ) (net : Net) → Outcome (at 0 r q n net, true) (suc len) [] (at 0 r q n net)
  Outcome-spent len r q n net = (ground arith, rw (take-nil r) refl, refl, omega arith)

  Outcome-full :
      (len k q n : ℕ) (net : Net) (p : List ℕ) (found : List (List ℕ))
      → Outcome (at k 0 (q + 1) n net, true) (suc len) (p ∷ found) (at (suc k) 0 q n net)
  Outcome-full len k q n net p found = (ground arith, refl, omega arith, omega arith)

  Outcome-miss :
      (res : Work Net × Bool) (len k r q n : ℕ) (net : Net) (found : List (List ℕ))
      → Outcome res len found (at k r (q + 1) n net)
      → Outcome res (suc len) found (at (suc k) r q n net)
  Outcome-miss res len k r q n net found o = (ground (arith, o.0), o.1, omega (arith, o.2), o.3)

  Outcome-hit :
      (res : Work Net × Bool) (len k r q n : ℕ) (net : Net) (p : List ℕ) (found : List (List ℕ))
      → Outcome res len found (
          at k r
            (q + 1)
            (if (send_to net (retx_copy p) remote).1 then n + 1 else n)
            (send_to net (retx_copy p) remote).0)
      → Outcome res (suc len) (p ∷ found) (at (suc k) (suc r) q n net)
  Outcome-hit res len k r q n net p found o =
      (ground (arith, o.0), o.1, omega (arith, o.2), omega (arith, o.3))

  missed :
      (buf : RetransmitBuffer) (s : ℕ) (seqs : List ℕ) (k r q n : ℕ) (net : Net)
      → get buf s ≡ none
      → Outcome
          (serve_nack_entries send_to remote buf seqs (at k r (q + 1) n net))
          (length seqs)
          (hits buf (take k seqs))
          (at k r (q + 1) n net)
      → Outcome
          (serve_nack_entries send_to remote buf (s ∷ seqs) (at (suc k) r q n net))
          (suc (length seqs))
          (hits buf (take (suc k) (s ∷ seqs)))
          (at (suc k) r q n net)
  missed buf s seqs k r q n net e o =
      subst
        (λ res.
          Outcome res (suc (length seqs)) (hits buf (take (suc k) (s ∷ seqs)))
            (at (suc k) r q n net))
        (sym (step_miss buf s seqs k r q n net e))
        (subst
          (λ f.
            Outcome (serve_nack_entries send_to remote buf seqs (at k r (q + 1) n net))
              (suc (length seqs)) (hit f (hits buf (take k seqs))) (at (suc k) r q n net))
          (sym e) (Outcome-miss _ (length seqs) k r q n net (hits buf (take k seqs)) o))

  found_one :
      (buf : RetransmitBuffer) (s : ℕ) (seqs : List ℕ) (k r q n : ℕ) (net : Net) (p : List ℕ)
      → get buf s ≡ some p
      → ((r' n' : ℕ) (net' : Net)
          → Outcome
              (serve_nack_entries send_to remote buf seqs (at k r' (q + 1) n' net'))
              (length seqs)
              (hits buf (take k seqs))
              (at k r' (q + 1) n' net'))
      → Outcome
          (serve_nack_entries send_to remote buf (s ∷ seqs) (at (suc k) r q n net))
          (suc (length seqs))
          (hits buf (take (suc k) (s ∷ seqs)))
          (at (suc k) r q n net)
  found_one buf s seqs k zero q n net p e ih =
      subst
        (λ res.
          Outcome res (suc (length seqs)) (hits buf (take (suc k) (s ∷ seqs)))
            (at (suc k) 0 q n net))
        (sym (step_full buf s seqs k q n net p e))
        (subst
          (λ f.
            Outcome (at k 0 (q + 1) n net, true) (suc (length seqs))
              (hit f (hits buf (take k seqs))) (at (suc k) 0 q n net))
          (sym e) (Outcome-full (length seqs) k q n net p (hits buf (take k seqs))))
  found_one buf s seqs k (suc r) q n net p e ih =
      let n' = if (send_to net (retx_copy p) remote).1 then n + 1 else n in
      let net' = (send_to net (retx_copy p) remote).0 in
      subst
        (λ res.
          Outcome res (suc (length seqs)) (hits buf (take (suc k) (s ∷ seqs)))
            (at (suc k) (suc r) q n net))
        (sym (step_hit buf s seqs k r q n net p e))
        (subst
          (λ f.
            Outcome (serve_nack_entries send_to remote buf seqs (at k r (q + 1) n' net'))
              (suc (length seqs)) (hit f (hits buf (take k seqs))) (at (suc k) (suc r) q n net))
          (sym e)
          (Outcome-hit _ (length seqs) k r q n net p (hits buf (take k seqs)) (ih r n' net')))

  serve_run :
      (buf : RetransmitBuffer) (seqs : List ℕ) (k r q n : ℕ) (net : Net)
      → Outcome
          (serve_nack_entries send_to remote buf seqs (at k r q n net))
          (length seqs)
          (hits buf (take k seqs))
          (at k r q n net)
  unfolding serve_nack_entries
  serve_run buf [] k r q n net = rw (take-nil k) (Outcome-nil k r q n net)
  serve_run buf (s ∷ seqs) zero r q n net =
      subst (λ res. Outcome res (suc (length seqs)) [] (at 0 r q n net))
        (sym (step_spent buf s seqs r q n net)) (Outcome-spent (length seqs) r q n net)
  serve_run buf (s ∷ seqs) (suc k) r q n net = elim (Option-cases (get buf s)) [
    | inl e ↦ missed buf s seqs k r q n net e (serve_run buf seqs k r (q + 1) n net)
    | inr h ↦
        found_one buf s seqs k r q n net h.0 h.1
          (λ r' n' net'. serve_run buf seqs k r' (q + 1) n' net')
  ]

  -- The walk hands to the socket the copies (`retx_copy`) of the first `retx` packets that the ring
  -- holds among the first `scan` numbers asked for, in their order, and nothing else; it counts the
  -- sends that succeed; it reports a spent budget exactly if it left a number unread or a packet
  -- unsent; each number that it reads is counted as requested and charged, and so is each packet
  -- that it sends.
  pub serve_nack_entries_lem :
      (buf : RetransmitBuffer) (seqs : List ℕ) (st : Work Net)
      → Outcome
          (serve_nack_entries send_to remote buf seqs st)
          (length seqs)
          (hits buf (take st.budget.scan seqs))
          st
  serve_nack_entries_lem buf seqs st =
      serve_run buf seqs st.budget.scan st.budget.retx st.requested st.retransmitted st.net
