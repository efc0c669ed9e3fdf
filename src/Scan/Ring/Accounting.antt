-- ===== src/Scan/Ring/Accounting.antt =====
-- What becomes of the samples of the ring (crates/plc-scan/src/spsc.rs).
use my_soft_plc.Prelude.{
  ℕ, zero, suc, ◌+◌, ◌-◌, ◌%◌, ◌^◌, ◌≤◌, ◌<◌, ◌≡◌, refl, ap, ◌∙◌, subst, Bool-cases, inl, inr,
  leb→le, Bool, true, false, Option, none, some, List, [], ◌∷◌, ◌++◌, arith, max, length,
  length-append, drop, drop-append, length-drop, nil, sym, leb, Subseq, Subseq-snoc,
  Subseq-skip_last, Subseq-trans, Subseq-middle,
}
use mathlib.Core.List.{append_assoc, append-nil}
use my_soft_plc.Scan.Ring.{Ring, channel, push_drop_oldest, try_recv, pop_front, front, count_drop}

-- A push, with whether the consumer holds the mutex; or a receive.
pub data Event {ℓ} (A : Type ℓ) : Type ℓ where
  pushes : Bool → A → Event A
  receives : Event A

-- The ring with what has been pushed and what has been received, both the oldest first.
pub record Trace {ℓ} (A : Type ℓ) : Type ℓ where
  pub ring : Ring A
  pub pushed : List A
  pub received : List A

module _ {ℓ} {A : Type ℓ} where
  abbrev pub start : ℕ → Trace A
  start capacity = record { ring = channel capacity; pushed = []; received = [] }

  abbrev pub to_list : Option A → List A
  to_list none = []
  to_list (some a) = a ∷ []

  abbrev pub step : Trace A → Event A → Trace A
  step t (pushes locked value) = record t {
    ring = push_drop_oldest t.ring locked value;
    pushed = t.pushed ++ value ∷ [];
  }
  step t receives =
      let (r, got) = try_recv t.ring in record t { ring = r; received = t.received ++ to_list got }

  abbrev pub run : Trace A → List (Event A) → Trace A
  run t [] = t
  run t (e ∷ es) = run (step t e) es

  -- What holds of the queue, the capacity and the count of drops, after these pushes and receipts.
  pub record Accounts (queue : List A) (cap drops : ℕ) (pushed received : List A) : Type ℓ where
    pub in_order : Subseq (received ++ queue) pushed
    pub bounded : length queue ≤ cap
    pub room : 0 < cap
    pub dropped : ℕ
    pub counted : drops ≡ dropped % 2 ^ 64
    pub balanced : length pushed ≡ length received + length queue + dropped

  abbrev pub IsAccounted : Trace A → Type ℓ
  IsAccounted t = Accounts t.ring.queue t.ring.cap t.ring.drops t.pushed t.received

  miss-Accounts :
      (q : List A) (cap drops : ℕ) (ps rs : List A) (v : A)
      → Accounts q cap drops ps rs
      → Accounts q cap (count_drop drops) (ps ++ v ∷ []) rs
  miss-Accounts q cap drops ps rs v h = record {
    in_order = Subseq-skip_last h.in_order v;
    bounded = h.bounded;
    room = h.room;
    dropped = h.dropped + 1;
    counted = omega (arith, h.counted);
    balanced = omega (arith, h.balanced, length-append ps (v ∷ []));
  }

  join-Accounts :
      (q : List A) (cap drops : ℕ) (ps rs : List A) (v : A)
      → Accounts q cap drops ps rs
      → length q < cap
      → Accounts (q ++ v ∷ []) cap drops (ps ++ v ∷ []) rs
  join-Accounts q cap drops ps rs v h free = record {
    in_order =
        subst (λ xs. Subseq xs (ps ++ v ∷ [])) (append_assoc rs q (v ∷ []))
          (Subseq-snoc h.in_order v);
    bounded = omega (arith, length-append q (v ∷ []));
    room = h.room;
    dropped = h.dropped;
    counted = h.counted;
    balanced = omega (arith, h.balanced, length-append ps (v ∷ []), length-append q (v ∷ []));
  }

  -- The front of the queue is dropped, and there is room for one more.
  drop-Accounts :
      (q : List A) (cap drops : ℕ) (ps rs : List A) (v : A)
      → Accounts q cap drops ps rs
      → cap ≤ length q
      → Accounts (pop_front q ++ v ∷ []) cap (count_drop drops) (ps ++ v ∷ []) rs
  drop-Accounts [] cap drops ps rs v h full = absurd (omega (arith, h.room))
  drop-Accounts (x ∷ q) cap drops ps rs v h full = record {
    in_order =
        subst (λ xs. Subseq xs (ps ++ v ∷ [])) (append_assoc rs q (v ∷ []))
          (Subseq-snoc (Subseq-trans h.in_order (Subseq-middle rs x q)) v);
    bounded = omega (arith, h.bounded, length-append q (v ∷ []));
    room = h.room;
    dropped = h.dropped + 1;
    counted = omega (arith, h.counted);
    balanced = omega (arith, h.balanced, length-append ps (v ∷ []), length-append q (v ∷ []));
  }

  recv-Accounts :
      (q : List A) (cap drops : ℕ) (ps rs : List A)
      → Accounts q cap drops ps rs
      → Accounts (pop_front q) cap drops ps (rs ++ to_list (front q))
  recv-Accounts [] cap drops ps rs h = rw append-nil h
  recv-Accounts (x ∷ q) cap drops ps rs h = record {
    in_order = rw append_assoc h.in_order;
    bounded = omega (arith, h.bounded);
    room = h.room;
    dropped = h.dropped;
    counted = h.counted;
    balanced = omega (arith, h.balanced, length-append rs (x ∷ []));
  }

  step-IsAccounted : (t : Trace A) (e : Event A) → IsAccounted t → IsAccounted (step t e)
  unfolding push_drop_oldest try_recv
  step-IsAccounted t (pushes true v) h = miss-Accounts _ _ _ t.pushed t.received v h
  step-IsAccounted t (pushes false v) h = elim (Bool-cases (leb t.ring.cap (length t.ring.queue))) [
    | inl full ↦ rw full (drop-Accounts _ _ _ t.pushed t.received v h (leb→le _ _ full))
    | inr free ↦ rw free (join-Accounts _ _ _ t.pushed t.received v h (ground arith))
  ]
  step-IsAccounted t receives h = recv-Accounts t.ring.queue _ _ t.pushed t.received h

  run-IsAccounted :
      (t : Trace A) (events : List (Event A)) → IsAccounted t → IsAccounted (run t events)
  run-IsAccounted t [] h = h
  run-IsAccounted t (e ∷ es) h = run-IsAccounted (step t e) es (step-IsAccounted t e h)

  start-IsAccounted : (n : ℕ) → IsAccounted (start n)
  unfolding channel
  start-IsAccounted n = record {
    in_order = nil;
    bounded = omega arith;
    room = omega arith;
    dropped = 0;
    counted = omega arith;
    balanced = omega arith;
  }

  -- After any sequence of pushes, blocked or not, and receipts: the queue holds at most the
  -- capacity; the samples received and then those in the queue are among the samples pushed, in
  -- their order; and the count of drops is, modulo 2 ^ 64, the number of samples pushed that are
  -- neither received nor in the queue.
  pub channel-IsAccounted :
      (capacity : ℕ) (events : List (Event A)) → IsAccounted (run (start capacity) events)
  channel-IsAccounted capacity events =
      run-IsAccounted (start capacity) events (start-IsAccounted capacity)

  abbrev pub push_all : Ring A → List A → Ring A
  push_all r [] = r
  push_all r (v ∷ vs) = push_all (push_drop_oldest r false v) vs

  pop_front-drop : (n : ℕ) (xs : List A) → pop_front (drop n xs) ≡ drop (suc n) xs
  pop_front-drop zero [] = refl
  pop_front-drop zero (x ∷ xs) = refl
  pop_front-drop (suc n) [] = refl
  pop_front-drop (suc n) (x ∷ xs) = pop_front-drop n xs

  drop-snoc :
      (n : ℕ) (xs : List A) (v : A)
      → n < length xs
      → pop_front (drop n xs) ++ v ∷ [] ≡ drop (suc n) (xs ++ v ∷ [])
  drop-snoc n xs v h = rw pop_front-drop (sym (drop-append (suc n) xs (v ∷ []) h))

  drop-nil : (n : ℕ) → ◌≡◌ {A = List A} (drop n []) []
  drop-nil zero = refl
  drop-nil (suc n) = refl

  latest_length :
      (q us : List A) (cap : ℕ)
      → q ≡ drop (length us - cap) us
      → length q ≡ length us - (length us - cap)
  latest_length q us cap e = ap length e ∙ length-drop (length us - cap) us

  latest_full :
      (q us : List A) (cap : ℕ) (v : A)
      → 0 < cap
      → q ≡ drop (length us - cap) us
      → cap ≤ length q
      → pop_front q ++ v ∷ [] ≡ drop (length (us ++ v ∷ []) - cap) (us ++ v ∷ [])
  latest_full q us cap v room e full =
      let n = latest_length q us cap e in
      let k : length (us ++ v ∷ []) - cap ≡ suc (length us - cap) =
        omega (arith, length-append us (v ∷ [])) in
      rw (k, e) (drop-snoc (length us - cap) us v (omega arith))

  latest_free :
      (q us : List A) (cap : ℕ) (v : A)
      → q ≡ drop (length us - cap) us
      → length q < cap
      → q ++ v ∷ [] ≡ drop (length (us ++ v ∷ []) - cap) (us ++ v ∷ [])
  latest_free q us cap v e free =
      let n = latest_length q us cap e in
      let k : length (us ++ v ∷ []) - cap ≡ 0 = omega (arith, length-append us (v ∷ [])) in
      let z : length us - cap ≡ 0 = omega arith in rw k (ap (λ xs. xs ++ v ∷ []) (rw z at e))

  push_latest :
      (r : Ring A) (us : List A) (v : A)
      → 0 < r.cap
      → r.queue ≡ drop (length us - r.cap) us
      → ((push_drop_oldest r false v).queue ≡ drop (length (us ++ v ∷ []) - r.cap) (us ++ v ∷ []))
        × ((push_drop_oldest r false v).cap ≡ r.cap)
  unfolding push_drop_oldest
  push_latest r us v room e = elim (Bool-cases (leb r.cap (length r.queue))) [
    | inl full ↦ rw full (latest_full r.queue us r.cap v room e (leb→le _ _ full), refl)
    | inr free ↦ rw free (latest_free r.queue us r.cap v e (ground arith), refl)
  ]

  push_all_latest :
      (r : Ring A) (cap : ℕ) (us vs : List A)
      → 0 < cap
      → r.cap ≡ cap
      → r.queue ≡ drop (length us - r.cap) us
      → (push_all r vs).queue ≡ drop (length (us ++ vs) - cap) (us ++ vs)
  push_all_latest r cap us [] room c e = rw append-nil (e ∙ rw c)
  push_all_latest r cap us (v ∷ vs) room c e =
      let (latest, same) = push_latest r us v (rw c room) e in
      rw append_assoc at (
        push_all_latest (push_drop_oldest r false v) cap (us ++ v ∷ []) vs room (same ∙ c)
          (latest ∙ rw same))

  -- With no receipts and the mutex free, the queue holds the newest samples, in the order of their
  -- pushes: all of them up to the capacity (at least 1), and that many of them beyond it.
  pub queue-push_all :
      (capacity : ℕ) (vs : List A)
      → (push_all (channel capacity) vs).queue ≡ drop (length vs - max capacity 1) vs
  unfolding channel
  queue-push_all capacity vs =
      push_all_latest (channel capacity) (max capacity 1) [] vs (omega arith) refl
        (sym (drop-nil _))
