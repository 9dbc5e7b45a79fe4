-- ===== src/Web/Pipeline/Order.antt =====
-- Responses are written one at a time, in the order in which they were given.
use pow_server.Prelude.{
  ◌-◌, ◌≡◌, refl, ◌∙◌, sym, subst, ap, Bool, true, false, not, List, [], ◌∷◌, ◌++◌, Option, none,
  some, Text, arith, is_nil, length, ◌==◌, take, append_assoc, append-nil, length-append,
  if◌then◌else◌,
}
use pow_server.Web.Pipeline.{
  Pipeline, respond, on_write, on_read, start_front, queue_on_write, is_full, read, begin_read,
  read_next,
}
use pow_server.Web.Pipeline.History.{
  History, of_answer, Step, read_done, read_begins, read_goes_on, read_ended, respond_later,
  write_done, write_fails, Reach, initial, later,
}

-- The responses are those that were written and those that wait, in this order, and the writes
-- that were started are those that were written and the one at the front.
pub record IsInOrder (p : Pipeline) (responses written : List Text) : Type 0 where
  pub none_lost : responses ≡ written ++ p.items
  pub one_write : p.started ≡ written ++ take 1 p.items

respond-items : (msg : Text) (p : Pipeline) → (respond msg p).items ≡ p.items ++ msg ∷ []
unfolding respond start_front
respond-items msg p = ground arith

pub only_one : (items : List Text) (msg : Text) → (length (items ++ msg ∷ []) == 1) ≡ is_nil items
only_one [] msg = refl
only_one (x ∷ items) msg = ground (arith, length-append items (msg ∷ []))

respond-started :
    (msg : Text) (p : Pipeline)
    → (respond msg p).started
      ≡ (if is_nil p.items then p.started ++ take 1 (p.items ++ msg ∷ []) else p.started)
unfolding respond start_front
respond-started msg p = ground (arith, only_one p.items msg)

-- A response behind others leaves the front as it is; an only one is the front.
front-append :
    (written items : List Text) (msg : Text)
    → (if is_nil items
        then (written ++ take 1 items) ++ take 1 (items ++ msg ∷ [])
        else written ++ take 1 items)
      ≡ written ++ take 1 (items ++ msg ∷ [])
front-append written [] msg = ap (λ w. w ++ msg ∷ []) (append-nil written)
front-append written (x ∷ items) msg = refl

respond-IsInOrder :
    (msg : Text) (p : Pipeline) (responses written : List Text)
    → IsInOrder p responses written
    → IsInOrder (respond msg p) (responses ++ msg ∷ []) written
respond-IsInOrder msg p responses written v = record {
  none_lost =
      ap (λ r. r ++ msg ∷ []) v.none_lost
      ∙ append_assoc written p.items (msg ∷ [])
      ∙ ap (λ i. written ++ i) (sym (respond-items msg p));
  one_write =
      respond-started msg p
      ∙ ap (λ s. if is_nil p.items then s ++ take 1 (p.items ++ msg ∷ []) else s) v.one_write
      ∙ front-append written p.items msg
      ∙ ap (λ i. written ++ take 1 i) (sym (respond-items msg p));
}

-- Whether a read follows makes no difference to the items and the writes.
read-IsInOrder :
    (b : Bool) (p : Pipeline) (responses written : List Text)
    → IsInOrder p responses written
    → IsInOrder (if b then read p else p) responses written
unfolding read
read-IsInOrder true p responses written v = record {
  none_lost = v.none_lost;
  one_write = v.one_write;
}
read-IsInOrder false p responses written v = v

on_read-IsInOrder :
    (answer : Option Text) (p : Pipeline) (responses written : List Text)
    → IsInOrder p responses written
    → IsInOrder (on_read answer p) (responses ++ of_answer answer) written
unfolding on_read begin_read read_next
on_read-IsInOrder none p responses written v =
    read-IsInOrder (not (is_full (record p { reads = p.reads - 1 })))
      (record p { reads = p.reads - 1 }) (responses ++ []) written
      (record { none_lost = append-nil responses ∙ v.none_lost; one_write = v.one_write })
on_read-IsInOrder (some msg) p responses written v =
    read-IsInOrder (not (is_full (respond msg (record p { reads = p.reads - 1 }))))
      (respond msg (record p { reads = p.reads - 1 })) (responses ++ msg ∷ []) written
      (respond-IsInOrder msg (record p { reads = p.reads - 1 }) responses written
        (record { none_lost = v.none_lost; one_write = v.one_write }))

pop-IsInOrder :
    (p : Pipeline) (first : Text) (rest responses written : List Text)
    → IsInOrder (record p { items = first ∷ rest }) responses written
    → IsInOrder
        ((queue_on_write (record p { items = first ∷ rest })).0)
        responses
        (written ++ first ∷ [])
unfolding queue_on_write start_front
pop-IsInOrder p first [] responses written v = record {
  none_lost = v.none_lost ∙ sym (append-nil (written ++ first ∷ []));
  one_write = v.one_write ∙ sym (append-nil (written ++ first ∷ []));
}
pop-IsInOrder p first (x ∷ rest) responses written v = record {
  none_lost = v.none_lost ∙ sym (append_assoc written (first ∷ []) (x ∷ rest));
  one_write = ap (λ s. s ++ x ∷ []) v.one_write;
}

queue_on_write-IsInOrder :
    (p : Pipeline) (first : Text) (rest responses written : List Text)
    → p.items ≡ first ∷ rest
    → IsInOrder p responses written
    → IsInOrder ((queue_on_write p).0) responses (written ++ first ∷ [])
queue_on_write-IsInOrder p first rest responses written split v =
    subst
      (λ items.
        IsInOrder ((queue_on_write (record p { items = items })).0) responses
          (written ++ first ∷ []))
      (sym split)
      (pop-IsInOrder p first rest responses written
        (subst (λ items. IsInOrder (record p { items = items }) responses written) split v))

abbrev pub HasOrder : History → Type 0
HasOrder s = IsInOrder s.pipeline s.responses s.written

pub Step-IsInOrder : {s t : History} → Step s t → HasOrder s → HasOrder t
unfolding on_write begin_read read_next
Step-IsInOrder {s} (read_done answer busy) v =
    on_read-IsInOrder answer s.pipeline s.responses s.written v
Step-IsInOrder {s} (read_begins busy) v = record {
  none_lost = v.none_lost;
  one_write = v.one_write;
}
Step-IsInOrder {s} (read_goes_on handles) v =
    read-IsInOrder (not (is_full s.pipeline)) s.pipeline s.responses s.written v
Step-IsInOrder {s} (read_ended true busy) v = record {
  none_lost = v.none_lost;
  one_write = v.one_write;
}
Step-IsInOrder {s} (read_ended false busy) v = record {
  none_lost = v.none_lost;
  one_write = v.one_write;
}
Step-IsInOrder {s} (write_fails going) v = v
Step-IsInOrder {s} (respond_later msg) v = respond-IsInOrder msg s.pipeline s.responses s.written v
Step-IsInOrder {s} (write_done true first rest going split) v = record {
  none_lost = v.none_lost;
  one_write = v.one_write;
}
Step-IsInOrder {s} (write_done false first rest going split) v =
    read-IsInOrder (queue_on_write s.pipeline).1 (queue_on_write s.pipeline).0 s.responses
      (s.written ++ first ∷ [])
      (queue_on_write-IsInOrder s.pipeline first rest s.responses s.written split v)

-- In every history of a session in which no two calls of its queue overlap, the responses are those
-- written and those that wait, in the order in which they were given, and a write is started only
-- when the one before it is complete.
pub Reach-IsInOrder : {s : History} → Reach s → HasOrder s
Reach-IsInOrder initial = record { none_lost = refl; one_write = refl }
Reach-IsInOrder (later r st) = Step-IsInOrder st (Reach-IsInOrder r)
