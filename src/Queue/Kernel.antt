-- ===== src/Queue/Kernel.antt =====
-- A kernel queue of ten messages, which meets the laws of `Mqueue`; the tests run on it.
use synchronome.Base.{ℕ, ◌≡◌, ◌≢◌, refl, ltb, if◌then◌else◌, List, [], ◌∷◌, ◌++◌, length, arith}
use synchronome.Queue.{Mqueue, Status, success, again, Received, message, empty}

abbrev pub send_ten : List ℕ → ℕ → Status × List ℕ
send_ten l v = if ltb (length l) 10 then (success, l ++ (v ∷ [])) else (again, l)

abbrev pub receive_list : List ℕ → Received × List ℕ
receive_list [] = (empty, [])
receive_list (x ∷ l) = (message x, l)

pub send_ten-sent :
    (l : List ℕ) (v : ℕ) → (send_ten l v).0 ≡ success → (send_ten l v).1 ≡ l ++ (v ∷ [])
send_ten-sent l v e = ground arith

pub send_ten-not_sent : (l : List ℕ) (v : ℕ) → (send_ten l v).0 ≢ success → (send_ten l v).1 ≡ l
send_ten-not_sent l v e = ground arith

pub receive_list-received :
    (l : List ℕ) (v : ℕ) → (receive_list l).0 ≡ message v → l ≡ v ∷ (receive_list l).1
receive_list-received [] v e = cc
receive_list-received (x ∷ l) v e = cc

pub receive_list-not_received :
    (l : List ℕ) → ((v : ℕ) → (receive_list l).0 ≢ message v) → (receive_list l).1 ≡ l
receive_list-not_received [] h = refl
receive_list-not_received (x ∷ l) h = absurd (h x refl)

pub receive_list-drained : (l : List ℕ) → (receive_list l).0 ≡ empty → l ≡ []
receive_list-drained [] e = refl
receive_list-drained (x ∷ l) e = cc

abbrev pub kernel : Mqueue
kernel = record {
  Mq = List ℕ;
  contents = λ l. l;
  mq_timedsend = send_ten;
  mq_receive = receive_list;
  sent = send_ten-sent;
  not_sent = send_ten-not_sent;
  received = receive_list-received;
  not_received = receive_list-not_received;
  drained = receive_list-drained;
}
