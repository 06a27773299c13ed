-- ===== src/Http/Transfer.antt =====
-- engine/src/http.cpp: `send_all` and `recv_all`. The kernel is a script with an answer to the `poll`
-- of each round and one to the `send` or `recv` that may follow. A `send` takes as many bytes as it
-- is offered, or as its answer says if these are fewer. A script that ends while the loop still runs
-- gives `none`. The texts of the errors are left out.
pub mod Delivery
use benchmark_platform.Prelude.{
  ℕ, zero, suc, ◌+◌, ◌-◌, ◌<◌, ◌≤◌, min, true, false, Option, none, some, List, [], ◌∷◌, ◌++◌, Bool,
  ltb, leb, length, take, drop, ◌≡◌, ◌↔◌, refl, sym, ap, subst, ◌∙◌, arith, All, Bool-cases, inl,
  inr, append_assoc, append-nil, length-append, length-take, length-drop,
}

pub data Poll : Type 0 where
  poll_ready poll_timeout poll_interrupted poll_failed : Poll

pub data Outcome : Type 0 where
  success timed_out poll_error io_error : Outcome

-- The answer to `send`; `send_again` is `EINTR`, `EAGAIN` and `EWOULDBLOCK`.
pub data Send : Type 0 where
  send_up_to : ℕ → Send
  send_again send_failed : Send

-- The loop of `send_all`, with the bytes that the peer has got so far.
unfoldable pub send_from :
    List (Poll × Send) → (bytes : List ℕ) → (sent : ℕ) → List ℕ → Option (Outcome × List ℕ)
send_from [] bytes sent wire = elim (ltb sent (length bytes)) [
  | true ↦ none
  | false ↦ some (success, wire)
]
send_from ((poll, send) ∷ script) bytes sent wire = elim (ltb sent (length bytes)) [
  | false ↦ some (success, wire)
  | true ↦ elim poll [
    | poll_timeout ↦ some (timed_out, wire)
    | poll_interrupted ↦ send_from script bytes sent wire
    | poll_failed ↦ some (poll_error, wire)
    | poll_ready ↦ elim send [
      | send_again ↦ send_from script bytes sent wire
      | send_failed ↦ some (io_error, wire)
      | send_up_to k ↦
          let n = min k (length bytes - sent) in
          send_from script bytes (sent + n) (wire ++ take n (drop sent bytes))
    ]
  ]
]

unfoldable pub send_all : List (Poll × Send) → List ℕ → Option (Outcome × List ℕ)
send_all script bytes = send_from script bytes 0 []

-- The answer to `recv`: bytes, the end of the stream, and the two kinds of errors.
pub data Recv : Type 0 where
  recv_bytes : List ℕ → Recv
  recv_end recv_again recv_failed : Recv

pub recv_all : List (Poll × Recv) → List ℕ → Option (Outcome × List ℕ)
recv_all [] out = none
recv_all ((poll, recv) ∷ script) out = elim poll [
  | poll_timeout ↦ some (timed_out, out)
  | poll_interrupted ↦ recv_all script out
  | poll_failed ↦ some (poll_error, out)
  | poll_ready ↦ elim recv [
    | recv_end ↦ some (success, out)
    | recv_again ↦ recv_all script out
    | recv_failed ↦ some (io_error, out)
    | recv_bytes part ↦ recv_all script (out ++ part)
  ]
]
