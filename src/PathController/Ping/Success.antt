-- ===== src/PathController/Ping/Success.antt =====
-- When a ping of cmd/vpn_client/app/pathcontroller/ping.go succeeds.
use vpn.Prelude.{
  ◌%◌, ◌^◌, ℕ, zero, suc, ◌+◌, ◌≡◌, ◌≢◌, ◌↔◌, ◌⊎◌, inl, inr, refl, String, Option, none, some,
  Result, ok, err, ◌==◌, arith, eq_iff, Result-cases, Bool-cases,
}
use vpn.PathController.Ping.{
  Echo, Message, Attempt, echo_reply, echo_payload, seq_of, check_echo, check_message, ping,
  ping_loop, ping_client,
}

-- The message counts as an answer: an echo of the number and the payload, or a message of any type
-- that is no echo reply.
pub record IsAnswer (seq : ℕ) (rm : Message) : Type 0 where
  pub answers :
      (rm.kind ≢ 129)
      ⊎ ((e : Echo) × (rm.body ≡ some e) × (e.seq ≡ seq) × (e.payload ≡ "HELLO-R-U-THERE"))

-- No call of the attempt fails, and the message that is read counts as an answer.
pub record IsSuccess (a : Attempt) : Type 0 where
  pub listen : a.listen ≡ ok tt
  pub set_deadline : a.set_deadline ≡ ok tt
  pub marshal : a.marshal ≡ ok tt
  pub write_to : a.write_to ≡ ok tt
  pub read_from : a.read_from ≡ ok tt
  pub message : (rm : Message) × (a.parse_message ≡ ok rm) × IsAnswer (a.counter % 2 ^ 16) rm

check_echo-inv :
    (seq : ℕ) (body : Option Echo)
    → check_echo seq body ≡ ok tt
    → (e : Echo) × (body ≡ some e) × (e.seq ≡ seq) × (e.payload ≡ echo_payload)
unfolding check_echo
check_echo-inv seq none h = ground (arith, h)
check_echo-inv seq (some e) h =
    (e, refl, ground (arith, h), (eq_iff e.payload echo_payload).0 (ground (arith, h)))

check_message-inv : (seq : ℕ) (rm : Message) → check_message seq rm ≡ ok tt → IsAnswer seq rm
unfolding check_message
check_message-inv seq rm h = elim (Bool-cases (rm.kind == echo_reply)) [
  | inl b ↦ record { answers = inr (check_echo-inv seq rm.body (ground (arith, b, h))) }
  | inr b ↦ record { answers = inl (λ e. ground (arith, b, e)) }
]

ping-inv : (a : Attempt) → ping a ≡ ok tt → IsSuccess a
unfolding ping seq_of
ping-inv a h = elim (Result-cases a.parse_message) [
  | inr f ↦ absurd (ground (arith, f.1, h))
  | inl m ↦ record {
    listen = ground (arith, h);
    set_deadline = ground (arith, h);
    marshal = ground (arith, h);
    write_to = ground (arith, h);
    read_from = ground (arith, h);
    message = (m.0, m.1, check_message-inv (a.counter % 2 ^ 16) m.0 (ground (arith, m.1, h)));
  }
]

check_message-answer : (seq : ℕ) (rm : Message) → IsAnswer seq rm → check_message seq rm ≡ ok tt
unfolding check_message check_echo
check_message-answer seq rm h = elim h.answers [
  | inl n ↦ ground (arith, n)
  | inr e ↦ ground (arith, e.1, e.2, e.3, eq_iff e.0.payload echo_payload)
]

ping-success : (a : Attempt) → IsSuccess a → ping a ≡ ok tt
unfolding ping seq_of
ping-success a h = ground (
  arith,
  h.listen,
  h.set_deadline,
  h.marshal,
  h.write_to,
  h.read_from,
  h.message.1,
  check_message-answer (a.counter % 2 ^ 16) h.message.0 h.message.2,
)

-- One of the attempts succeeds.
abbrev pub SomeSucceeds : ℕ → (ℕ → Attempt) → ℕ → Type 0
SomeSucceeds zero answers try = ⊥
SomeSucceeds (suc tries) answers try =
    IsSuccess (answers try) ⊎ SomeSucceeds tries answers (try + 1)

ping_loop-inv :
    (tries : ℕ) (answers : ℕ → Attempt) (try : ℕ) (e : String)
    → ping_loop tries answers try (err e) ≡ ok tt
    → SomeSucceeds tries answers try
unfolding ping_loop
ping_loop-inv zero answers try e h = ground (arith, h)
ping_loop-inv (suc tries) answers try e h = elim (Result-cases (ping (answers try))) [
  | inl s ↦ inl (ping-inv (answers try) s.1)
  | inr f ↦ inr (ping_loop-inv tries answers (try + 1) f.0 (ground (arith, f.1, h)))
]

ping_loop-success :
    (tries : ℕ) (answers : ℕ → Attempt) (try : ℕ) (last : Result (Unit {0}))
    → SomeSucceeds tries answers try
    → ping_loop tries answers try last ≡ ok tt
unfolding ping_loop
ping_loop-success zero answers try last h = absurd h
ping_loop-success (suc tries) answers try last (inl s) =
    ground (arith, ping-success (answers try) s)
ping_loop-success (suc tries) answers try last (inr r) = elim (Result-cases (ping (answers try))) [
  | inl s ↦ ground (arith, s.1)
  | inr f ↦ ground (arith, f.1, ping_loop-success tries answers (try + 1) (err f.0) r)
]

-- A ping with retries succeeds if and only if one of its attempts does: no call of that attempt
-- fails, and it reads an echo reply with the number that the attempt took from the shared counter,
-- modulo 2^16, and the payload HELLO-R-U-THERE, or a message of any type but 129, the echo reply.
pub ping_client_iff :
    (retries : ℕ) (answers : ℕ → Attempt)
    → (ping_client retries answers ≡ ok tt) ↔ SomeSucceeds (suc retries) answers 1
unfolding ping_client ping_loop
ping_client_iff retries answers = (
  λ h. ping_loop-inv (suc retries) answers 1 "" h,
  λ s. ping_loop-success (suc retries) answers 1 (ok tt) s,
)
