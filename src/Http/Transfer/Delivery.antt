-- ===== src/Http/Transfer/Delivery.antt =====
-- What the two loops deliver.
use benchmark_platform.Prelude.{
  take_more, take_full, ℕ, ◌+◌, ◌-◌, ◌≤◌, min, true, false, Option, none, some, List, [], ◌∷◌, ◌++◌,
  Bool, ltb, leb, length, take, ◌≡◌, refl, sym, ap, subst, ◌∙◌, arith, All, Bool-cases, inl, inr,
  append_assoc, append-nil, length-take,
}
use benchmark_platform.Http.Transfer.{
  Poll, poll_ready, poll_timeout, poll_interrupted, poll_failed, Outcome, success, timed_out,
  poll_error, io_error, Send, send_up_to, send_again, send_failed, send_from, send_all, Recv,
  recv_bytes, recv_end, recv_again, recv_failed, recv_all,
}

abbrev pub is_success : Outcome → Bool
is_success success = true
is_success _ = false

-- The peer has got the first bytes, and all of them exactly if there is no error.
abbrev pub IsSent : List ℕ → Option (Outcome × List ℕ) → Type 0
IsSent bytes none = Unit
IsSent bytes (some r) =
    (r.1 ≡ take (length r.1) bytes) × (is_success r.0 ≡ leb (length bytes) (length r.1))

take-IsSent :
    (bytes : List ℕ) (sent : ℕ) (o : Outcome)
    → sent ≤ length bytes
    → is_success o ≡ leb (length bytes) sent
    → IsSent bytes (some (o, take sent bytes))
take-IsSent bytes sent o h e =
    let len : length (take sent bytes) ≡ sent = omega (arith, length-take sent bytes) in
    rw len (refl, e)

send_from-IsSent :
    (script : List (Poll × Send)) (bytes : List ℕ) (sent : ℕ)
    → sent ≤ length bytes
    → IsSent bytes (send_from script bytes sent (take sent bytes))
unfolding send_from
send_from-IsSent [] bytes sent h = elim (Bool-cases (ltb sent (length bytes))) [
  | inl more ↦ rw (more, send_from) tt
  | inr done ↦ rw (done, send_from) (take-IsSent bytes sent success h (ground arith))
]
send_from-IsSent ((poll_timeout, send) ∷ script) bytes sent h =
    elim (Bool-cases (ltb sent (length bytes))) [
      | inl more ↦ rw (more, send_from) (take-IsSent bytes sent timed_out h (ground arith))
      | inr done ↦ rw (done, send_from) (take-IsSent bytes sent success h (ground arith))
    ]
send_from-IsSent ((poll_failed, send) ∷ script) bytes sent h =
    elim (Bool-cases (ltb sent (length bytes))) [
      | inl more ↦ rw (more, send_from) (take-IsSent bytes sent poll_error h (ground arith))
      | inr done ↦ rw (done, send_from) (take-IsSent bytes sent success h (ground arith))
    ]
send_from-IsSent ((poll_interrupted, send) ∷ script) bytes sent h =
    elim (Bool-cases (ltb sent (length bytes))) [
      | inl more ↦ rw (more, send_from) (send_from-IsSent script bytes sent h)
      | inr done ↦ rw (done, send_from) (take-IsSent bytes sent success h (ground arith))
    ]
send_from-IsSent ((poll_ready, send_again) ∷ script) bytes sent h =
    elim (Bool-cases (ltb sent (length bytes))) [
      | inl more ↦ rw (more, send_from) (send_from-IsSent script bytes sent h)
      | inr done ↦ rw (done, send_from) (take-IsSent bytes sent success h (ground arith))
    ]
send_from-IsSent ((poll_ready, send_failed) ∷ script) bytes sent h =
    elim (Bool-cases (ltb sent (length bytes))) [
      | inl more ↦ rw (more, send_from) (take-IsSent bytes sent io_error h (ground arith))
      | inr done ↦ rw (done, send_from) (take-IsSent bytes sent success h (ground arith))
    ]
send_from-IsSent ((poll_ready, send_up_to k) ∷ script) bytes sent h =
    elim (Bool-cases (ltb sent (length bytes))) [
      | inl more ↦
          rw (more, send_from)
            (let n = min k (length bytes - sent) in
              rw (take_more sent n bytes) (send_from-IsSent script bytes (sent + n) (omega arith)))
      | inr done ↦ rw (done, send_from) (take-IsSent bytes sent success h (ground arith))
    ]

-- Whatever the kernel answers, when send_all returns, the peer has got the first bytes of the
-- data, and there is no error exactly if it has got all of them.
pub send_all-IsSent :
    (script : List (Poll × Send)) (bytes : List ℕ) (o : Outcome) (wire : List ℕ)
    → send_all script bytes ≡ some (o, wire)
    → (wire ≡ take (length wire) bytes) × (is_success o ≡ leb (length bytes) (length wire))
unfolding send_all
send_all-IsSent script bytes o wire e =
    subst (IsSent bytes) e (send_from-IsSent script bytes 0 (omega arith))

-- Whether a round of `send_all` is sure to send something.
abbrev pub progress : Poll × Send → ℕ
progress (poll_ready, send_up_to k) = min k 1
progress _ = 0

-- Whether a round ends the loop with an error.
abbrev pub fails : Poll × Send → Bool
fails (poll_timeout, send) = true
fails (poll_failed, send) = true
fails (poll_ready, send_failed) = true
fails _ = false

unfoldable pub total_progress : List (Poll × Send) → ℕ
total_progress [] = 0
total_progress (r ∷ script) = progress r + total_progress script

send_from-success :
    (script : List (Poll × Send)) (bytes : List ℕ) (sent : ℕ) (wire : List ℕ)
    → All (λ r. fails r ≡ false) script
    → length bytes ≤ sent + total_progress script
    → (w : List ℕ) × (send_from script bytes sent wire ≡ some (success, w))
unfolding send_from total_progress
send_from-success [] bytes sent wire ok h =
    let done : ltb sent (length bytes) ≡ false = ground arith in (wire, rw (done, send_from) refl)
send_from-success ((poll_timeout, send) ∷ script) bytes sent wire ok h =
    absurd (ground (arith, ok.0))
send_from-success ((poll_failed, send) ∷ script) bytes sent wire ok h =
    absurd (ground (arith, ok.0))
send_from-success ((poll_ready, send_failed) ∷ script) bytes sent wire ok h =
    absurd (ground (arith, ok.0))
send_from-success ((poll_interrupted, send) ∷ script) bytes sent wire ok h =
    elim (Bool-cases (ltb sent (length bytes))) [
      | inl more ↦
          rw (more, send_from) (send_from-success script bytes sent wire ok.1 (omega (arith, h)))
      | inr done ↦ (wire, rw (done, send_from) refl)
    ]
send_from-success ((poll_ready, send_again) ∷ script) bytes sent wire ok h =
    elim (Bool-cases (ltb sent (length bytes))) [
      | inl more ↦
          rw (more, send_from) (send_from-success script bytes sent wire ok.1 (omega (arith, h)))
      | inr done ↦ (wire, rw (done, send_from) refl)
    ]
send_from-success ((poll_ready, send_up_to k) ∷ script) bytes sent wire ok h =
    elim (Bool-cases (ltb sent (length bytes))) [
      | inl more ↦
          rw (more, send_from)
            (send_from-success script bytes (sent + min k (length bytes - sent)) _ ok.1
              (ground arith))
      | inr done ↦ (wire, rw (done, send_from) refl)
    ]

-- If no answer of the kernel is an error and the rounds that surely send a byte are as many as
-- the bytes, send_all returns with no error, and the peer has got the data.
pub send_all-success :
    (script : List (Poll × Send)) (bytes : List ℕ)
    → All (λ r. fails r ≡ false) script
    → length bytes ≤ total_progress script
    → send_all script bytes ≡ some (success, bytes)
unfolding send_all
send_all-success script bytes ok h =
    let (w, e) = send_from-success script bytes 0 [] ok (omega (arith, h)) in
    let sent = send_all-IsSent script bytes success w e in
    let all : length bytes ≤ length w = ground (arith, sent.1) in
    let same : w ≡ bytes = sent.0 ∙ take_full (length w) bytes all in
    e ∙ ap (λ x. some (success, x)) same

-- Whether a round of `recv_all` ends the loop.
abbrev pub ends : Poll × Recv → Bool
ends (poll_timeout, recv) = true
ends (poll_failed, recv) = true
ends (poll_ready, recv_end) = true
ends (poll_ready, recv_failed) = true
ends _ = false

-- The bytes that the rounds bring in.
abbrev pub received : List (Poll × Recv) → List ℕ
received [] = []
received ((poll_ready, recv_bytes part) ∷ script) = part ++ received script
received (r ∷ script) = received script

-- However the stream is cut into parts and however often a round is interrupted, recv_all appends
-- all the parts in order up to the end of the stream.
pub recv_all-received :
    (script rest : List (Poll × Recv)) (out : List ℕ)
    → All (λ r. ends r ≡ false) script
    → recv_all (script ++ (poll_ready, recv_end) ∷ rest) out
      ≡ some (success, out ++ received script)
unfolding recv_all
recv_all-received [] rest out ok = ap (λ l. some (success, l)) (sym (append-nil out))
recv_all-received ((poll_timeout, recv) ∷ script) rest out ok = absurd (ground (arith, ok.0))
recv_all-received ((poll_failed, recv) ∷ script) rest out ok = absurd (ground (arith, ok.0))
recv_all-received ((poll_ready, recv_end) ∷ script) rest out ok = absurd (ground (arith, ok.0))
recv_all-received ((poll_ready, recv_failed) ∷ script) rest out ok = absurd (ground (arith, ok.0))
recv_all-received ((poll_interrupted, recv) ∷ script) rest out ok =
    recv_all-received script rest out ok.1
recv_all-received ((poll_ready, recv_again) ∷ script) rest out ok =
    recv_all-received script rest out ok.1
recv_all-received ((poll_ready, recv_bytes part) ∷ script) rest out ok =
    recv_all-received script rest (out ++ part) ok.1
    ∙ ap (λ l. some (success, l)) (append_assoc out part (received script))
