-- ===== src/Client/Transfer.antt =====
-- What `SendAll` and `RecvAll` move.
use cpp_remote_screen_captur.Base.{
  ℕ, zero, suc, ◌+◌, ◌≡◌, List, [], ◌∷◌, ◌++◌, length, take, drop, ltb, false, refl, arith, ap, ◌∙◌,
  ltb_false→le, take_add, take_all, if-cases,
}
use cpp_remote_screen_captur.Session.State.{eagain, ewouldblock, eintr, epipe, other}
use cpp_remote_screen_captur.Session.Socket.{Recv, bytes, Send, count, failed}
use cpp_remote_screen_captur.Client.State.{Io, done}
use cpp_remote_screen_captur.Client.Socket.{send_loop, send_all, recv_all}

-- The connection has taken a first part of the data, and all of it if the call has returned.
abbrev pub SendsInOrder : List ℕ → Io ℕ × List ℕ → Type 0
SendsInOrder octets (r, wire) =
    ((k : ℕ) × (wire ≡ take k octets)) × ((n : ℕ) → r ≡ done n → wire ≡ octets)

send_done :
    (octets wire : List ℕ) (sent : ℕ)
    → wire ≡ take sent octets
    → ltb sent (length octets) ≡ false
    → SendsInOrder octets (done sent, wire)
send_done octets wire sent e h = ((sent, e), λ n q. e ∙ take_all sent octets (ltb_false→le _ _ h))

send_loop-SendsInOrder :
    (answers : List Send) (octets : List ℕ) (sent : ℕ) (wire : List ℕ)
    → wire ≡ take sent octets
    → SendsInOrder octets (send_loop answers octets sent wire)
unfolding send_loop
send_loop-SendsInOrder [] octets sent wire e =
    if-cases (SendsInOrder octets) (ltb sent (length octets)) _ _ (λ _. ((sent, e), λ n q. cc))
      (send_done octets wire sent e)
send_loop-SendsInOrder (count zero ∷ answers) octets sent wire e =
    if-cases (SendsInOrder octets) (ltb sent (length octets)) _ _ (λ _. ((sent, e), λ n q. cc))
      (send_done octets wire sent e)
send_loop-SendsInOrder (count (suc n) ∷ answers) octets sent wire e =
    if-cases (SendsInOrder octets) (ltb sent (length octets)) _ _
      (λ _.
        send_loop-SendsInOrder answers octets (sent + suc n)
          (wire ++ take (suc n) (drop sent octets))
          (rw e (take_add sent (suc n) (sent + suc n) octets refl)))
      (send_done octets wire sent e)
send_loop-SendsInOrder (failed eintr ∷ answers) octets sent wire e =
    if-cases (SendsInOrder octets) (ltb sent (length octets)) _ _
      (λ _. send_loop-SendsInOrder answers octets sent wire e) (send_done octets wire sent e)
send_loop-SendsInOrder (failed x ∷ answers) octets sent wire e =
    if-cases (SendsInOrder octets) (ltb sent (length octets)) _ _ (λ _. ((sent, e), λ n q. cc))
      (send_done octets wire sent e)

-- Whatever the system answers, `SendAll` puts the bytes on the connection in their order from the
-- first on, none twice and none left out, and returns only when all of them are there.
pub send_all-SendsInOrder :
    (answers : List Send) (octets : List ℕ) → SendsInOrder octets (send_all answers octets)
unfolding send_all
send_all-SendsInOrder answers octets = send_loop-SendsInOrder answers octets 0 [] refl

-- Answers that accept bytes in the end: counts above 0 and interruptions.
abbrev pub IsSending : List Send → Type 0
IsSending [] = Unit {0}
IsSending (count zero ∷ answers) = ⊥
IsSending (count (suc n) ∷ answers) = IsSending answers
IsSending (failed eintr ∷ answers) = IsSending answers
IsSending (failed e ∷ answers) = ⊥

abbrev pub total : List Send → ℕ
total [] = 0
total (count n ∷ answers) = n + total answers
total (failed e ∷ answers) = total answers

send_loop_returns :
    (answers : List Send) (octets : List ℕ) (sent : ℕ) (wire : List ℕ)
    → IsSending answers
    → sent + total answers ≡ length octets
    → (send_loop answers octets sent wire).0 ≡ done (length octets)
unfolding send_loop
send_loop_returns [] octets sent wire h e = ground arith
send_loop_returns (count zero ∷ answers) octets sent wire h e = absurd h
send_loop_returns (count (suc n) ∷ answers) octets sent wire h e =
    let ih =
      send_loop_returns answers octets (sent + suc n) (wire ++ take (suc n) (drop sent octets)) h
        (omega arith) in
    if-cases (λ (p : Io ℕ × List ℕ). p.0 ≡ done (length octets)) (ltb sent (length octets)) _ _
      (λ _. ih) (λ f. absurd (omega (arith, ltb_false→le _ _ f)))
send_loop_returns (failed eintr ∷ answers) octets sent wire h e =
    let ih = send_loop_returns answers octets sent wire h (omega arith) in
    if-cases (λ (p : Io ℕ × List ℕ). p.0 ≡ done (length octets)) (ltb sent (length octets)) _ _
      (λ _. ih) (λ f. ap done (omega (arith, ltb_false→le _ _ f)))
send_loop_returns (failed eagain ∷ answers) octets sent wire h e = absurd h
send_loop_returns (failed ewouldblock ∷ answers) octets sent wire h e = absurd h
send_loop_returns (failed epipe ∷ answers) octets sent wire h e = absurd h
send_loop_returns (failed (other x) ∷ answers) octets sent wire h e = absurd h

-- Where `send` accepts counts above 0 that add up to the size of the data, through any
-- interruptions, `SendAll` returns that size, and the connection has the data.
pub send_all_returns :
    (answers : List Send) (octets : List ℕ)
    → IsSending answers
    → total answers ≡ length octets
    → send_all answers octets ≡ (done (length octets), octets)
unfolding send_all
send_all_returns answers octets h e =
    let r = send_loop_returns answers octets 0 [] h (omega arith) in
    let w = (send_loop-SendsInOrder answers octets 0 [] refl).1 (length octets) r in λ i. (r i, w i)

-- `RecvAll` of one byte: the first byte that arrives, if the connection gives one byte at most to
-- each call, as it is asked to.
pub recv_all_one :
    (answers : List Recv) (b : ℕ) → recv_all (bytes (b ∷ []) ∷ answers) 1 ≡ done (b ∷ [])
unfolding recv_all
recv_all_one [] b = ground arith
recv_all_one (bytes [] ∷ answers) b = ground arith
recv_all_one (bytes (x ∷ xs) ∷ answers) b = ground arith
recv_all_one (failed eintr ∷ answers) b = ground arith
recv_all_one (failed e ∷ answers) b = ground arith
