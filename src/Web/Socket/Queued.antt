-- ===== src/Web/Socket/Queued.antt =====
-- The send queue of a websocket_session (src/workserver/webserver.hpp) and the messages that the
-- session was given.
use pow_server.Prelude.{
  ℕ, ◌+◌, ◌-◌, ◌<◌, ◌≤◌, ◌≡◌, ◌↔◌, sym, ap, ◌∙◌, List, [], ◌∷◌, ◌++◌, Text, arith, length, drop,
  take, refl, length-append, append_assoc, append-nil, dec_lt,
}

-- What the send queue `q`, the writes that were started and the number that are complete make of
-- the messages that were given: at most one write is under way, its message is the one at the front
-- of the queue, and behind the started writes the rest of the queue waits.
pub record IsQueued (given started : List Text) (completed : ℕ) (q : List Text) : Type 0 where
  pub one_write : length started ≤ completed + 1
  pub no_more : completed ≤ length started
  pub has_front : completed < length started → 0 < length q
  pub at_front : completed < length started → drop completed started ≡ take 1 q
  pub in_order : given ≡ started ++ drop (length started - completed) q

-- The last of the started writes, behind those that are complete.
drop-last : (xs : List Text) (n : ℕ) (y : Text) → length xs ≡ n → drop n (xs ++ y ∷ []) ≡ y ∷ []
drop-last [] n y e = rw (← e) refl
drop-last (x ∷ xs) n y e = rw (← e) (drop-last xs (length xs) y refl)

past : (started q : List Text) (n k : ℕ) → n ≡ k → started ++ drop n q ≡ started ++ drop k q
past started q n k e = ap (λ i. started ++ drop i q) e

module _ (given started : List Text) (completed : ℕ) where
  busy_order :
      (x : Text) (q : List Text)
      → length started ≡ completed + 1
      → (given ≡ started ++ drop (length started - completed) (x ∷ q)) ↔ (given ≡ started ++ q)
  busy_order x q one =
      let same = past started (x ∷ q) (length started - completed) 1 (omega arith) in
      (λ e. e ∙ same, λ e. e ∙ sym same)

  idle_order :
      (q : List Text)
      → length started ≡ completed
      → (given ≡ started ++ drop (length started - completed) q) ↔ (given ≡ started ++ q)
  idle_order q none_under_way =
      let same = past started q (length started - completed) 0 (omega arith) in
      (λ e. e ∙ same, λ e. e ∙ sym same)

-- A message for an empty queue is written at once.
pub first-IsQueued :
    (given started : List Text) (completed : ℕ) (m : Text)
    → IsQueued given started completed []
    → IsQueued (given ++ m ∷ []) (started ++ m ∷ []) completed (m ∷ [])
first-IsQueued given started completed m v =
    let idle : length started ≡ completed = elim (dec_lt completed (length started)) [
      | yes busy ↦ absurd (omega (arith, v.has_front busy))
      | no done ↦ omega (arith, v.no_more)
    ] in
    let longer = length-append started (m ∷ []) in
    record {
      one_write = omega (arith, longer, idle);
      no_more = omega (arith, longer, idle);
      has_front = λ _. omega arith;
      at_front = λ _. drop-last started completed m idle;
      in_order =
          (busy_order (given ++ m ∷ []) (started ++ m ∷ []) completed m []
              (omega (arith, idle, longer))).1
            (ap (λ g. g ++ m ∷ [])
                ((idle_order given started completed [] idle).0 v.in_order ∙ append-nil started)
              ∙ sym (append-nil (started ++ m ∷ [])));
    }

-- A message for a queue that is not empty waits.
pub behind-IsQueued :
    (given started : List Text) (completed : ℕ) (m x : Text) (q : List Text)
    → IsQueued given started completed (x ∷ q)
    → IsQueued (given ++ m ∷ []) started completed (x ∷ q ++ m ∷ [])
behind-IsQueued given started completed m x q v = record {
  one_write = v.one_write;
  no_more = v.no_more;
  has_front = λ _. omega arith;
  at_front = λ busy. v.at_front busy;
  in_order = elim (dec_lt completed (length started)) [
    | yes busy ↦
        let one : length started ≡ completed + 1 = omega (arith, v.one_write) in
        (busy_order (given ++ m ∷ []) started completed x (q ++ m ∷ []) one).1 (
          ap (λ g. g ++ m ∷ []) ((busy_order given started completed x q one).0 v.in_order)
          ∙ append_assoc started q (m ∷ []))
    | no done ↦
        let idle : length started ≡ completed = omega (arith, v.no_more) in
        (idle_order (given ++ m ∷ []) started completed (x ∷ q ++ m ∷ []) idle).1 (
          ap (λ g. g ++ m ∷ []) ((idle_order given started completed (x ∷ q) idle).0 v.in_order)
          ∙ append_assoc started (x ∷ q) (m ∷ []))
  ];
}

-- A write ends that was the last or that fails: the messages that wait stay.
pub stop-IsQueued :
    (given started : List Text) (completed : ℕ) (x : Text) (q : List Text)
    → completed < length started
    → IsQueued given started completed (x ∷ q)
    → IsQueued given started (completed + 1) q
stop-IsQueued given started completed x q busy v =
    let one : length started ≡ completed + 1 = omega (arith, v.one_write) in
    record {
      one_write = omega (arith, one);
      no_more = omega (arith, one);
      has_front = λ more. absurd (omega (arith, one));
      at_front = λ more. absurd (omega (arith, one));
      in_order =
          (idle_order given started (completed + 1) q one).1
            ((busy_order given started completed x q one).0 v.in_order);
    }

-- A write ends well, and the next message is written.
pub next-IsQueued :
    (given started : List Text) (completed : ℕ) (x y : Text) (q : List Text)
    → completed < length started
    → IsQueued given started completed (x ∷ y ∷ q)
    → IsQueued given (started ++ y ∷ []) (completed + 1) (y ∷ q)
next-IsQueued given started completed x y q busy v =
    let one : length started ≡ completed + 1 = omega (arith, v.one_write) in
    let longer = length-append started (y ∷ []) in
    record {
      one_write = omega (arith, one, longer);
      no_more = omega (arith, one, longer);
      has_front = λ _. omega arith;
      at_front = λ _. drop-last started (completed + 1) y one;
      in_order =
          (busy_order given (started ++ y ∷ []) (completed + 1) y q (omega (arith, one, longer))).1
            ((busy_order given started completed x (y ∷ q) one).0 v.in_order
              ∙ sym (append_assoc started (y ∷ []) q));
    }
