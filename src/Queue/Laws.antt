-- ===== src/Queue/Laws.antt =====
-- server/conn.go, `outstandingRequests`: requests with ids of their own are popped in the order in which they were set,
-- and a request with the id of one on its way stops the connection.
use go_smb.Common.{
  ℕ, Bool, true, false, none, some, List, [], ◌∷◌, ◌++◌, append_assoc, append-nil, ◌≡◌, refl, sym,
  subst, ◌∙◌, ap, ◌==◌, inl, inr, ◌⊎◌, arith, Post, Post-none, Post-pure, Post-if, Post-some,
}
use go_smb.Common.Assoc.{find, insert, erase, find-insert, find-erase}
use go_smb.Queue.{
  Receiver, ready, sending, Server, away, waiting, received, Outstanding, Event, sets, pops, hands,
  looks, cancels, new_outstanding_requests, step, run, popped_of,
}

module _ {R : Type 0} where
  -- The id of the request that is set is not the id that the server has received and not yet looked up.
  abbrev IsFresh : Event R → Server → Type 0
  IsFresh (sets id rr) (received i) = (i == id) ≡ false
  IsFresh (sets id rr) away = Unit
  IsFresh (sets id rr) waiting = Unit
  IsFresh pops s = Unit
  IsFresh hands s = Unit
  IsFresh looks s = Unit
  IsFresh cancels s = Unit

  -- The requests on their way from `set` to the return of `pop`.
  abbrev IsPending : List (ℕ × R) → Server → Receiver → List R → Type 0
  IsPending m (received i) (sending j) rs =
      (r : R) × (r' : R) × (find i m ≡ some r)
      × (find j m ≡ some r')
      × ((i == j) ≡ false)
      × (rs ≡ r ∷ r' ∷ [])
  IsPending m (received i) ready rs = (r : R) × (find i m ≡ some r) × (rs ≡ r ∷ [])
  IsPending m away (sending j) rs = (r : R) × (find j m ≡ some r) × (rs ≡ r ∷ [])
  IsPending m waiting (sending j) rs = (r : R) × (find j m ≡ some r) × (rs ≡ r ∷ [])
  IsPending m away ready rs = rs ≡ []
  IsPending m waiting ready rs = rs ≡ []

  -- The lock is free, and what was set is what was popped and then what is on its way.
  abbrev pub IsInOrder : Outstanding R → Type 0
  IsInOrder q =
      (q.locked ≡ false)
      × (rs : List R) × (IsPending q.requests q.server q.receiver rs)
      × (q.sent ≡ q.popped ++ rs)

  abbrev pub state : List (ℕ × R) → Bool → Receiver → Server → List R → List R → Outstanding R
  state m l r s sent popped = record {
    requests = m;
    locked = l;
    receiver = r;
    server = s;
    sent = sent;
    popped = popped;
  }

  find-insert_same : (id : ℕ) (rr : R) (m : List (ℕ × R)) → find id (insert id rr m) ≡ some rr
  find-insert_same id rr m = ground (arith, find-insert id id rr m)

  find-insert_other :
      (id i : ℕ) (rr r : R) (m : List (ℕ × R))
      → (i == id) ≡ false
      → find i m ≡ some r
      → find i (insert id rr m) ≡ some r
  find-insert_other id i rr r m apart found = ground (arith, find-insert id i rr m)

  -- One more request than what is on its way.
  sent-snoc :
      (sent popped rs rest : List R) (rr : R)
      → sent ≡ popped ++ rs
      → rs ≡ rest
      → sent ++ (rr ∷ []) ≡ popped ++ (rest ++ (rr ∷ []))
  sent-snoc sent popped rs rest rr log same =
      ap (λ l. l ++ (rr ∷ [])) (log ∙ ap (λ l. popped ++ l) same)
      ∙ append_assoc popped rest (rr ∷ [])

  popped-cons :
      (sent popped rs rest : List R) (r : R)
      → sent ≡ popped ++ rs
      → rs ≡ r ∷ rest
      → sent ≡ (popped ++ (r ∷ [])) ++ rest
  popped-cons sent popped rs rest r log same =
      log ∙ ap (λ l. popped ++ l) same ∙ sym (append_assoc popped (r ∷ []) rest)

  step-IsInOrder :
      (e : Event R) (m : List (ℕ × R)) (l : Bool) (r : Receiver) (s : Server) (sent popped : List R)
      → IsInOrder (state m l r s sent popped)
      → IsFresh e s
      → Post IsInOrder (step e (state m l r s sent popped))
  step-IsInOrder (sets id rr) m l (sending j) s sent popped sound new = Post-none IsInOrder
  step-IsInOrder (sets id rr) m l ready away sent popped (free, rs, none_left, log) new =
      Post-if IsInOrder l none _ (Post-none IsInOrder) (
        Post-pure IsInOrder (
          free,
          rr ∷ [],
          (rr, find-insert_same id rr m, refl),
          sent-snoc sent popped rs [] rr log none_left,
        ))
  step-IsInOrder (sets id rr) m l ready waiting sent popped (free, rs, none_left, log) new =
      Post-if IsInOrder l none _ (Post-none IsInOrder) (
        Post-pure IsInOrder (
          free,
          rr ∷ [],
          (rr, find-insert_same id rr m, refl),
          sent-snoc sent popped rs [] rr log none_left,
        ))
  step-IsInOrder (sets id rr) m l ready (received i) sent popped (free, rs, (r, found, one), log)
        new =
      Post-if IsInOrder l none _ (Post-none IsInOrder) (
        Post-pure IsInOrder (
          free,
          r ∷ rr ∷ [],
          (r, rr, find-insert_other id i rr r m new found, find-insert_same id rr m, new, refl),
          sent-snoc sent popped rs (r ∷ []) rr log one,
        ))
  step-IsInOrder pops m l ready away sent popped sound new = Post-pure IsInOrder sound
  step-IsInOrder pops m l (sending j) away sent popped sound new = Post-pure IsInOrder sound
  step-IsInOrder pops m l r waiting sent popped sound new = Post-none IsInOrder
  step-IsInOrder pops m l r (received i) sent popped sound new = Post-none IsInOrder
  step-IsInOrder hands m l ready s sent popped sound new = Post-none IsInOrder
  step-IsInOrder hands m l (sending j) away sent popped sound new = Post-none IsInOrder
  step-IsInOrder hands m l (sending j) waiting sent popped sound new = Post-pure IsInOrder sound
  step-IsInOrder hands m l (sending j) (received i) sent popped sound new = Post-none IsInOrder
  step-IsInOrder looks m l r away sent popped sound new = Post-none IsInOrder
  step-IsInOrder looks m l r waiting sent popped sound new = Post-none IsInOrder
  step-IsInOrder looks m l ready (received i) sent popped (free, rs, (r, found, one), log) new =
      Post-if IsInOrder l none _ (Post-none IsInOrder)
        (rw found (Post-pure IsInOrder (free, [], refl, popped-cons sent popped rs [] r log one)))
  step-IsInOrder looks m l (sending j) (received i) sent popped
        (free, rs, (r, r', found, other, apart, two), log) new =
      let left : find j (erase i m) ≡ some r' = ground (arith, find-erase i j m) in
      Post-if IsInOrder l none _ (Post-none IsInOrder) (
        rw found (
          Post-pure IsInOrder
            (free, r' ∷ [], (r', left, refl), popped-cons sent popped rs (r' ∷ []) r log two)))
  step-IsInOrder cancels m l r away sent popped sound new = Post-none IsInOrder
  step-IsInOrder cancels m l ready waiting sent popped (free, rs, none_left, log) new =
      Post-pure IsInOrder (refl, rs, none_left, log)
  step-IsInOrder cancels m l (sending j) waiting sent popped (free, rs, on_way, log) new =
      Post-pure IsInOrder (refl, rs, on_way, log)
  step-IsInOrder cancels m l r (received i) sent popped sound new = Post-none IsInOrder

  -- What the goroutines still have to do for the requests on their way.
  abbrev pub drain : Server → Receiver → List (Event R)
  drain away ready = []
  drain waiting ready = []
  drain (received i) ready = looks ∷ []
  drain away (sending j) = pops ∷ hands ∷ looks ∷ []
  drain waiting (sending j) = hands ∷ looks ∷ []
  drain (received i) (sending j) = looks ∷ pops ∷ hands ∷ looks ∷ []

  drain_lem :
      (m : List (ℕ × R)) (r : Receiver) (s : Server) (sent popped : List R)
      → IsInOrder (state m false r s sent popped)
      → (q : Outstanding R) × (run (drain s r) (state m false r s sent popped) ≡ some q)
        × (q.popped ≡ sent)
  drain_lem m ready away sent popped (free, rs, none_left, log) = (
    state m false ready away sent popped,
    refl,
    sym (log ∙ ap (λ l. popped ++ l) none_left ∙ append-nil popped),
  )
  drain_lem m ready waiting sent popped (free, rs, none_left, log) = (
    state m false ready waiting sent popped,
    refl,
    sym (log ∙ ap (λ l. popped ++ l) none_left ∙ append-nil popped),
  )
  drain_lem m ready (received i) sent popped (free, rs, (r, found, one), log) = (
    popped_of i (state m false ready (received i) sent popped) (some r),
    rw found refl,
    sym (log ∙ ap (λ l. popped ++ l) one),
  )
  drain_lem m (sending j) away sent popped (free, rs, (r, found, one), log) = (
    popped_of j (state m false ready (received j) sent popped) (some r),
    rw found refl,
    sym (log ∙ ap (λ l. popped ++ l) one),
  )
  drain_lem m (sending j) waiting sent popped (free, rs, (r, found, one), log) = (
    popped_of j (state m false ready (received j) sent popped) (some r),
    rw found refl,
    sym (log ∙ ap (λ l. popped ++ l) one),
  )
  drain_lem m (sending j) (received i) sent popped
        (free, rs, (r, r', found, other, apart, two), log) =
      let left : find j (erase i m) ≡ some r' = ground (arith, find-erase i j m) in
      let first = state (erase i m) false ready (received j) sent (popped ++ (r ∷ [])) in
      (
        popped_of j first (some r'),
        rw (found, left) refl,
        sym (popped-cons sent popped rs (r' ∷ []) r log two),
      )

-- A new queue, and what any events make of it in which no id is set that the server has received and not looked up.
pub data Reachable (R : Type 0) : Outstanding R → Type 0 where
  fresh : Reachable R new_outstanding_requests
  after :
      (e : Event R) (q q' : Outstanding R)
      → Reachable R q
      → IsFresh e q.server
      → step e q ≡ some q'
      → Reachable R q'

-- However the two goroutines take turns, if no request is set with the id that the server has received and not yet
-- looked up, then the lock is free between the events, and the requests that were set are those that were popped, in
-- their order, and then those on their way, of which the map holds each under its id, and of which there are two at most.
pub Reachable-IsInOrder : {R : Type 0} (q : Outstanding R) → Reachable R q → IsInOrder q
Reachable-IsInOrder q fresh = (refl, [], refl, refl)
Reachable-IsInOrder q (after e b _ before new ran) =
    Post-some IsInOrder
      (step-IsInOrder e b.requests b.locked b.receiver b.server b.sent b.popped
        (Reachable-IsInOrder b before) new)
      ran

-- From every state that a new queue reaches when no request is set with the id that the server has received and not
-- yet looked up, the events that `drain` names are possible one after the other, and after them the requests that were
-- popped are those that were set, in order.
pub Reachable-drains :
    {R : Type 0} (q : Outstanding R)
    → Reachable R q
    → (q' : Outstanding R) × (run (drain q.server q.receiver) q ≡ some q') × (q'.popped ≡ q.sent)
Reachable-drains {R} q reached =
    let sound = Reachable-IsInOrder q reached in
    let same : q ≡ state q.requests false q.receiver q.server q.sent q.popped =
      ap (λ l. state q.requests l q.receiver q.server q.sent q.popped) sound.0 in
    subst
      (λ x.
        (q' : Outstanding R) × (run (drain x.server x.receiver) x ≡ some q') × (q'.popped ≡ x.sent))
      (sym same)
      (drain_lem q.requests q.receiver q.server q.sent q.popped (subst IsInOrder same sound))

stuck :
    {R : Type 0} (m : List (ℕ × R)) (sent popped : List R) (e : Event R)
    → (e ≡ cancels) ⊎ (step e (state m true ready waiting sent popped) ≡ none)
stuck m sent popped (sets i rr) = inr refl
stuck m sent popped pops = inr refl
stuck m sent popped hands = inr refl
stuck m sent popped looks = inr refl
stuck m sent popped cancels = inl refl

-- If a request is set with the id that the server has received and not yet looked up, and both goroutines go on, then the
-- second request is popped in place of the first, and afterwards no event is possible but the end of the connection.
pub duplicate-stops :
    {R : Type 0} (m : List (ℕ × R)) (sent popped : List R) (i : ℕ) (rr : R)
    → (q : Outstanding R) × (run
          (sets i rr ∷ looks ∷ pops ∷ hands ∷ looks ∷ [])
          (state m false ready (received i) sent popped)
        ≡ some q)
      × (q.popped ≡ popped ++ (rr ∷ []))
      × ((e : Event R) → (e ≡ cancels) ⊎ (step e q ≡ none))
duplicate-stops m sent popped i rr =
    let left : find i (erase i (insert i rr m)) ≡ none =
      ground (arith, find-erase i i (insert i rr m)) in
    (
      state (erase i (erase i (insert i rr m))) true ready waiting (sent ++ (rr ∷ []))
          (popped ++ (rr ∷ [])),
      rw (find-insert_same i rr m, left) refl,
      refl,
      stuck _ _ _,
    )
