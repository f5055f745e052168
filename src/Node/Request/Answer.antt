-- ===== src/Node/Request/Answer.antt =====
-- What `request` returns is the response that it waited for.
use ha_bluetooth_mesh.Prelude.{
  ℕ, zero, suc, ◌+◌, ◌≤◌, ◌≡◌, refl, sym, ap, ◌∙◌, subst, arith, Bool, true, Option, none, some,
  List, [], ◌∷◌, ◌++◌, ◌&&◌, ◌==◌, if◌then◌else◌, Option-cases, inl, inr,
}
use ha_bluetooth_mesh.Prelude.Bytes.{Bytes}
use ha_bluetooth_mesh.Prelude.Outcome.{Result, ok, err}
use ha_bluetooth_mesh.Crypto.{Primitives}
use ha_bluetooth_mesh.Node.{
  MeshNode, Handled, ReceivedMessage, Waiter, answers, resolve, deliver, cancel_sar_timers,
  drop_source,
}
use ha_bluetooth_mesh.Node.Evict.{new_assembler-keeps}
use ha_bluetooth_mesh.Node.Send.{send_access}
use ha_bluetooth_mesh.Node.Request.{
  Attempt, silence, fresh_ticket, result_of, feed, next_attempt, await_response, after_send,
  attempts, request,
}
use ha_bluetooth_mesh.Node.Request.Laws.{
  IsRequestKept, send_access-keeps, feed-keeps, after_send-keeps,
}

module _ (dst opcode ticket : ℕ) where
  -- The message is from the peer, with the opcode that was asked for.
  unfoldable answered : Option ReceivedMessage → Bool
  answered none = true
  answered (some msg) = (msg.src == dst) && (msg.opcode == opcode)

  -- The waiters of this ticket are those of the request, and hold nothing but its answer.
  unfoldable all_answered : List Waiter → Bool
  unfolding answered
  all_answered [] = true
  all_answered (w ∷ ws) =
      let rest = all_answered ws in
      if w.ticket == ticket
      then (w.dst == dst) && (w.opcode == opcode) && answered w.result && rest
      else rest

  all_answered-resolve :
      (msg : ReceivedMessage) (ws : List Waiter)
      → all_answered ws ≡ true
      → all_answered (resolve msg ws) ≡ true
  unfolding all_answered answered resolve answers
  all_answered-resolve msg [] h = refl
  all_answered-resolve msg (w ∷ ws) h = ground (arith, all_answered-resolve msg ws)

  answered-result_of :
      (ws : List Waiter) → all_answered ws ≡ true → answered (result_of ticket ws) ≡ true
  unfolding all_answered answered result_of
  answered-result_of [] h = refl
  answered-result_of (w ∷ ws) h = ground (arith, answered-result_of ws)

  all_answered-fresh :
      (ws : List Waiter)
      → fresh_ticket ws ≤ ticket
      → all_answered
          (ws ++ (record { dst = dst; opcode = opcode; ticket = ticket; result = none } ∷ []))
        ≡ true
  unfolding all_answered answered fresh_ticket
  all_answered-fresh [] h = ground arith
  all_answered-fresh (w ∷ ws) h = ground (arith, all_answered-fresh ws)

  abbrev IsAnswered : MeshNode → Type 0
  IsAnswered n = all_answered n.waiters ≡ true

  IsAnswered-IsRequestKept : IsRequestKept IsAnswered
  unfolding cancel_sar_timers drop_source deliver
  IsAnswered-IsRequestKept = record {
    handled = record {
      spend = λ n count h. h;
      emit = λ n sent h. h;
      note = λ n ack h. h;
      cancel = λ n src h. h;
      schedule = λ n src a ack incomplete there h. h;
      start = λ n src missing. new_assembler-keeps IsAnswered (λ src n h. h) src n (λ n table h. h);
      update = λ n src old a there h. h;
      receive = λ n msg h. all_answered-resolve msg n.waiters h;
    };
    seen = λ n pdu h. h;
  }

  -- What the request may return: its answer, or an exception.
  abbrev IsAnswerOr : Result ReceivedMessage → Type 0
  IsAnswerOr (ok msg) = answered (some msg) ≡ true
  IsAnswerOr (err e) = Unit {0}

  abbrev IsRound : Option (Result ReceivedMessage) → Type 0
  IsRound none = Unit {0}
  IsRound (some result) = IsAnswerOr result

  answer-result_of :
      (n : MeshNode) (msg : ReceivedMessage)
      → IsAnswered n
      → result_of ticket n.waiters ≡ some msg
      → answered (some msg) ≡ true
  answer-result_of n msg h there = sym (ap answered there) ∙ answered-result_of n.waiters h

  module _ (p : Primitives) (loop : Bool) (payload : Bytes) (dev_key : Bool) (ttl : ℕ) where
    after_send_answer :
        (arrivals : Attempt) (r : Handled)
        → IsAnswered r.0
        → IsRound (after_send p loop dst opcode payload dev_key ttl ticket arrivals r).1
    unfolding after_send await_response
    after_send_answer arrivals (n, err e) h = tt
    after_send_answer arrivals (n, ok u) h = elim (Option-cases (result_of ticket n.waiters)) [
      | inr (msg, there) ↦ rw (there, await_response) (answer-result_of n msg h there)
      | inl open' ↦
          let n' : MeshNode = feed p loop arrivals.in_time n in
          elim (Option-cases (result_of ticket n'.waiters)) [
            | inr (msg, there) ↦
                rw (open', there, await_response)
                  (answer-result_of n' msg
                    (feed-keeps p loop IsAnswered IsAnswered-IsRequestKept arrivals.in_time n h)
                    there)
            | inl late ↦ rw (open', late, await_response) tt
          ]
    ]

    next_attempt_answer :
        (next : MeshNode → MeshNode × Result ReceivedMessage)
        (r : MeshNode × Option (Result ReceivedMessage))
        → ((n : MeshNode) → IsAnswered n → IsAnswerOr (next n).1)
        → IsAnswered r.0
        → IsRound r.1
        → IsAnswerOr (next_attempt next r).1
    unfolding next_attempt
    next_attempt_answer next (n, some result) k h round = round
    next_attempt_answer next (n, none) k h round = k n h

    round_answer :
        (left : ℕ) (now : Attempt) (arrivals : List Attempt) (n : MeshNode)
        → ((n : MeshNode)
            → IsAnswered n
            → IsAnswerOr (attempts p loop dst opcode payload dev_key ttl ticket left arrivals n).1)
        → IsAnswered n
        → IsAnswerOr
            (next_attempt (attempts p loop dst opcode payload dev_key ttl ticket left arrivals) (
              after_send p loop dst opcode payload dev_key ttl ticket now
                (send_access p dst payload dev_key ttl n))).1
    round_answer left now arrivals n rest h =
        let kept = IsAnswered-IsRequestKept in
        let sent : Handled = send_access p dst payload dev_key ttl n in
        let h' : IsAnswered sent.0 =
          send_access-keeps p loop IsAnswered kept dst payload dev_key ttl n h in
        next_attempt_answer (attempts p loop dst opcode payload dev_key ttl ticket left arrivals)
          (after_send p loop dst opcode payload dev_key ttl ticket now sent) rest
          (after_send-keeps p loop IsAnswered kept dst opcode payload dev_key ttl ticket now sent
            h')
          (after_send_answer now sent h')

    attempts_answer :
        (left : ℕ) (arrivals : List Attempt) (n : MeshNode)
        → IsAnswered n
        → IsAnswerOr (attempts p loop dst opcode payload dev_key ttl ticket left arrivals n).1
    unfolding attempts
    attempts_answer zero arrivals n h = elim (Option-cases (result_of ticket n.waiters)) [
      | inl open' ↦ rw (open', attempts) tt
      | inr (msg, there) ↦ rw (there, attempts) (answer-result_of n msg h there)
    ]
    attempts_answer (suc left) [] n h = round_answer left silence [] n (attempts_answer left []) h
    attempts_answer (suc left) (now ∷ arrivals) n h =
        round_answer left now arrivals n (attempts_answer left arrivals) h

answered-eq :
    (dst opcode ticket : ℕ) (msg : ReceivedMessage)
    → answered dst opcode ticket (some msg) ≡ true
    → (msg.src ≡ dst) × (msg.opcode ≡ opcode)
unfolding answered
answered-eq dst opcode ticket msg h = (ground arith, ground arith)

-- Whatever arrives, in whatever order and however late, and whoever else waits: the message that a
-- request returns is from the peer that it was sent to and has the opcode that was asked for.
pub request_answer :
    (p : Primitives) (loop : Bool) (dst opcode : ℕ) (payload : Bytes) (dev_key : Bool)
    (ttl retries : ℕ) (arrivals : List Attempt) (n m : MeshNode) (msg : ReceivedMessage)
    → request p loop dst opcode payload dev_key ttl retries arrivals n ≡ (m, ok msg)
    → (msg.src ≡ dst) × (msg.opcode ≡ opcode)
unfolding request
request_answer p loop dst opcode payload dev_key ttl retries arrivals n m msg h =
    let ticket = fresh_ticket n.waiters in
    let waiter : Waiter = record { dst = dst; opcode = opcode; ticket = ticket; result = none } in
    let answer =
      attempts_answer dst opcode ticket p loop payload dev_key ttl (retries + 1) arrivals
        (record n { waiters = n.waiters ++ (waiter ∷ []) })
        (all_answered-fresh dst opcode ticket n.waiters (omega arith)) in
    let returned : answered dst opcode ticket (some msg) ≡ true =
      subst (IsAnswerOr dst opcode ticket) (ap (λ (r : MeshNode × Result ReceivedMessage). r.1) h)
        answer in
    answered-eq dst opcode ticket msg returned
