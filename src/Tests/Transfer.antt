-- ===== src/Tests/Transfer.antt =====
-- `send_all`: the theorems at concrete inputs.
use benchmark_platform.Prelude.{ℕ, ◌≡◌, refl, List, [], ◌∷◌, some, take, length, leb}
use benchmark_platform.Http.Transfer.{
  Poll, poll_ready, poll_failed, poll_error, Send, send_up_to, send_again, send_all, send_from,
}
use benchmark_platform.Http.Transfer.Delivery.{is_success, send_all-IsSent}

abbrev text : List ℕ
text = 1 ∷ 2 ∷ 3 ∷ []

abbrev two_bytes : List ℕ
two_bytes = 1 ∷ 2 ∷ []

abbrev broken : List (Poll × Send)
broken = (poll_ready, send_up_to 2) ∷ (poll_failed, send_again) ∷ []

broken_run : send_all broken text ≡ some (poll_error, two_bytes)
unfolding send_all send_from
broken_run = refl

send_all-IsSent_example :
    (two_bytes ≡ take (length two_bytes) text)
    × (is_success poll_error ≡ leb (length text) (length two_bytes))
send_all-IsSent_example = send_all-IsSent broken text poll_error two_bytes broken_run
