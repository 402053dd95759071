-- ===== src/Sock/Tests.antt =====
-- A connection over kernel/net/socket/unix.c.
use yanix.Common.{ℕ, ◌≡◌, refl, none, some, List, [], ◌∷◌, arith, ◌==◌, if◌then◌else◌, replicate}
use yanix.Common.Int.{pos}
use yanix.Queue.{Queue}
use yanix.Queue.Fifo.{IsValid, contents}
use yanix.Sock.{SocketConn, Socket, State}
use yanix.Sock.Handshake.{Paired, handshake, handshake-Paired}

abbrev queue : Queue
queue = record { buffer = replicate 4 0; size = 0; capacity = 4; lock = 0 }

queue-IsValid : IsValid queue
queue-IsValid = record { block = refl; bounded = omega arith; unlocked = refl }

-- Both ends know the socket at 40, which listens.
abbrev an_end : SocketConn
an_end = record { client = 0; soc = 40; type = 1; protocol = 0; send_pipe = 0; recv_pipe = 0 }

abbrev listening : Socket
listening = record {
  protocol = 0;
  type = 1;
  server_lock = 1;
  server_backlog = pos 5;
  accept_queue = queue;
}

abbrev state : State
state = record {
  conn = λ p. if p == 10 then some an_end else if p == 11 then some an_end else none;
  socket = λ p. if p == 40 then some listening else none;
  accept_conn = λ _. none;
  pipe = λ _. none;
  heap = 50 ∷ 60 ∷ 61 ∷ 70 ∷ [];
  errno = 0;
}

abbrev zeroes : ℕ → List ℕ
zeroes n = replicate n 0

handshake-Paired_example :
    (s' : State) × (k' : Socket) × (handshake zeroes 10 11 state ≡ some (some 70, s'))
    × Paired s' 10 70
    × (s'.socket 40 ≡ some k')
    × IsValid k'.accept_queue
    × (contents k'.accept_queue ≡ [])
handshake-Paired_example =
    handshake-Paired zeroes state 10 11 50 60 61 70 [] an_end an_end listening refl refl refl refl
      (λ e. omega (arith, e)) queue-IsValid refl (λ e. omega (arith, e)) refl
      (λ e. omega (arith, e)) (λ e. omega (arith, e)) (λ e. omega (arith, e))
