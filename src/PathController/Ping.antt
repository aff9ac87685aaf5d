-- ===== src/PathController/Ping.antt =====
-- cmd/vpn_client/app/pathcontroller/ping.go. The calls of golang.org/x/net/icmp and what they answer
-- are parameters: an attempt is the list of their answers.
use vpn.Prelude.{
  ℕ, zero, suc, ◌+◌, ◌%◌, ◌^◌, ◌≤◌, ◌≡◌, ◌≢◌, ◌↔◌, ◌⊎◌, inl, inr, refl, String, Bool, true, false,
  Option, none, some, List, [], ◌∷◌, Result, ok, err, guard, ◌>>◌, ◌>>=◌, ◌==◌, if◌then◌else◌,
  str_eq, arith, eq_iff,
}
pub mod Success

-- `icmp.Echo`, with its data as a text.
pub record Echo : Type 0 where
  pub seq : ℕ
  pub payload : String

-- `icmp.Message`: its type, and its body where that is an `Echo`.
pub record Message : Type 0 where
  pub kind : ℕ
  pub body : Option Echo

-- The answers to the calls of an attempt; `parse_message` also stands for the bytes that are read.
-- `counter` is what `lastSeq.Add` returns: the pings of all clients share it, so that the attempts of
-- one ping need not have numbers in a row.
pub record Attempt : Type 0 where
  pub counter : ℕ
  pub listen : Result (Unit {0})
  pub set_deadline : Result (Unit {0})
  pub marshal : Result (Unit {0})
  pub write_to : Result (Unit {0})
  pub read_from : Result (Unit {0})
  pub parse_message : Result Message

abbrev pub echo_reply : ℕ
echo_reply = 129

abbrev pub echo_payload : String
echo_payload = "HELLO-R-U-THERE"

-- The sequence number of an attempt.
unfoldable pub seq_of : ℕ → ℕ
seq_of counter = counter % 2 ^ 16

-- The checks of the body of an echo reply.
unfoldable pub check_echo : ℕ → Option Echo → Result (Unit {0})
check_echo seq none = err "error parsing response as ICMPTypeEchoReply"
check_echo seq (some echo) = do
  guard (echo.seq == seq) "unexpected sequence number"
  guard (str_eq echo.payload echo_payload) "payload mismatch"

-- The switch over the type of the message; `err` is nil in its last branch.
unfoldable pub check_message : ℕ → Message → Result (Unit {0})
unfolding check_echo
check_message seq rm = if rm.kind == echo_reply then check_echo seq rm.body else ok tt

-- `ping`.
unfoldable pub ping : Attempt → Result (Unit {0})
unfolding check_message seq_of
ping a = do
  a.listen
  a.set_deadline
  a.marshal
  a.write_to
  a.read_from
  rm ← a.parse_message
  check_message (seq_of a.counter) rm

-- The loop of `Ping`, with the attempts left, what each of them answers, `try` and the last error.
unfoldable pub ping_loop : ℕ → (ℕ → Attempt) → ℕ → Result (Unit {0}) → Result (Unit {0})
ping_loop zero answers try last = last
ping_loop (suc tries) answers try last = elim (ping (answers try)) [
  | ok u ↦ ok u
  | err e ↦ ping_loop tries answers (try + 1) (err e)
]

-- `Ping`, with the retries of the pinger. `pingWithTimer` only changes the text of an error.
unfoldable pub ping_client : ℕ → (ℕ → Attempt) → Result (Unit {0})
ping_client retries answers = ping_loop (suc retries) answers 1 (ok tt)
