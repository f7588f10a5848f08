-- ===== src/Retransmit/History.antt =====
-- What a lookup finds after any history of inserts.
use bilbycast_rist.Prelude.{
  ℕ, zero, suc, ◌+◌, ◌-◌, ◌^◌, ◌≤◌, ◌<◌, ◌≡◌, ◌≢◌, ◌∙◌, sym, subst, ap, refl, arith, none, some,
  List, [], ◌∷◌, if◌then◌else◌, ◌==◌, ◌++◌, get_elem?, wrapping_add, length, ==_self, ne→not_eq,
}
use bilbycast_rist.Ring.{IsRing, slot_index, slot_index-inj}
use bilbycast_rist.Retransmit.{RetransmitBuffer, insert, get}

-- The inserts that the sender makes: consecutive numbers from `first`, wrapping, oldest first.
unfoldable pub insert_run : RetransmitBuffer → ℕ → List (List ℕ) → RetransmitBuffer
insert_run b first [] = b
insert_run b first (p ∷ ps) = insert_run (insert b first p) (wrapping_add first 1) ps

-- A lookup after an insert: the inserted number is found with its packet; a number of another slot
-- is found as before; a number that shares the slot is evicted.
pub get-insert :
    (b : RetransmitBuffer) (seq other : ℕ) (packet : List ℕ)
    → get (insert b seq packet) other ≡ (
        if slot_index (b.capacity - 1) other == slot_index (b.capacity - 1) seq
        then (if seq == other then some packet else none)
        else get b other)
unfolding get insert
get-insert b seq other packet = ground arith

capacity-insert_run :
    (b : RetransmitBuffer) (first : ℕ) (ps : List (List ℕ))
    → (insert_run b first ps).capacity ≡ b.capacity
unfolding insert_run insert
capacity-insert_run b first [] = refl
capacity-insert_run b first (p ∷ ps) =
    capacity-insert_run (insert b first p) (wrapping_add first 1) ps

insert_run-append :
    (b : RetransmitBuffer) (first : ℕ) (ps qs : List (List ℕ))
    → first < 2 ^ 16
    → insert_run b first (ps ++ qs)
      ≡ insert_run (insert_run b first ps) (wrapping_add first (length ps)) qs
unfolding insert_run
insert_run-append b first [] qs h = ap (λ t. insert_run b t qs) (omega arith)
insert_run-append b first (p ∷ ps) qs h =
    insert_run-append (insert b first p) (wrapping_add first 1) ps qs (omega arith)
    ∙ ap (λ t. insert_run (insert_run (insert b first p) (wrapping_add first 1) ps) t qs)
        (omega arith)

-- Inserts into other slots leave a lookup alone.
get-insert_run_ne :
    (b : RetransmitBuffer) (first other : ℕ) (ps : List (List ℕ))
    → first < 2 ^ 16
    → ((i : ℕ)
        → i < length ps
        → slot_index (b.capacity - 1) other ≢ slot_index (b.capacity - 1) (wrapping_add first i))
    → get (insert_run b first ps) other ≡ get b other
unfolding insert_run insert
get-insert_run_ne b first other [] hf apart = refl
get-insert_run_ne b first other (p ∷ ps) hf apart =
    get-insert_run_ne (insert b first p) (wrapping_add first 1) other ps (omega arith) (λ i hi e.
      apart (suc i) (omega arith) (
        e
        ∙ ap (slot_index (b.capacity - 1)) {x = wrapping_add (wrapping_add first 1) i}
            (omega arith)))
    ∙ get-insert b first other p
    ∙ rw (ne→not_eq (slot_index (b.capacity - 1) other) (slot_index (b.capacity - 1) first) far)
        refl
  where
    far : slot_index (b.capacity - 1) other ≢ slot_index (b.capacity - 1) first
    far e =
        apart 0 (omega arith)
          (e ∙ ap (slot_index (b.capacity - 1)) {y = wrapping_add first 0} (omega arith))

-- A run no longer than the ring.
get-insert_run_recent :
    (b : RetransmitBuffer) (first : ℕ) (ps : List (List ℕ)) (i : ℕ)
    → IsRing (b.capacity - 1) b.capacity
    → first < 2 ^ 16
    → length ps ≤ b.capacity
    → i < length ps
    → get (insert_run b first ps) (wrapping_add first i) ≡ get_elem? ps i
unfolding insert_run insert
get-insert_run_recent b first [] i r hf few hi = absurd (omega arith)
get-insert_run_recent b first (p ∷ ps) zero r hf few hi =
    let e : wrapping_add first 0 ≡ first = omega arith in
    ap (get (insert_run (insert b first p) (wrapping_add first 1) ps)) e
    ∙ get-insert_run_ne (insert b first p) (wrapping_add first 1) first ps (omega arith)
        (λ j hj same. absurd (
          omega (
            arith,
            slot_index-inj first 0 (suc j) r (omega arith) (omega arith) (
                ap (slot_index (b.capacity - 1)) e
                ∙ same
                ∙ ap (slot_index (b.capacity - 1)) {y = wrapping_add first (suc j)} (omega arith)),
          )))
    ∙ get-insert b first first p
    ∙ rw (==_self (slot_index (b.capacity - 1) first), ==_self first) refl
get-insert_run_recent b first (p ∷ ps) (suc i) r hf few hi =
    ap (get (insert_run (insert b first p) (wrapping_add first 1) ps))
      {x = wrapping_add first (suc i)} {y = wrapping_add (wrapping_add first 1) i} (omega arith)
    ∙ get-insert_run_recent (insert b first p) (wrapping_add first 1) ps i r (omega arith)
        (omega arith) (omega arith)

-- With a capacity that is a power of two and divides the sequence space, the newest `capacity`
-- packets of a run of any length are all found, each under its own number, whatever the buffer held
-- before and wherever the numbers wrap.
pub get-insert_run :
    (b : RetransmitBuffer) (first : ℕ) (old recent : List (List ℕ)) (i : ℕ)
    → IsRing (b.capacity - 1) b.capacity
    → first < 2 ^ 16
    → length recent ≤ b.capacity
    → i < length recent
    → get (insert_run b first (old ++ recent)) (wrapping_add first (length old + i))
      ≡ get_elem? recent i
get-insert_run b first old recent i r hf few hi =
    let b' = insert_run b first old in
    let cap = capacity-insert_run b first old in
    ap (λ t. get t (wrapping_add first (length old + i))) (insert_run-append b first old recent hf)
    ∙ ap (get (insert_run b' (wrapping_add first (length old)) recent))
        {y = wrapping_add (wrapping_add first (length old)) i} (omega arith)
    ∙ get-insert_run_recent b' (wrapping_add first (length old)) recent i
        (subst (λ c. IsRing (c - 1) c) (sym cap) r) (omega arith) (omega (arith, cap)) hi
