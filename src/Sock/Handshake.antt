-- ===== src/Sock/Handshake.antt =====
-- A connection is made: `unix_socket_connect` queues it, and `unix_socket_accept` takes it.
use yanix.Common.{
  ℕ, ◌^◌, ◌≡◌, ◌≢◌, refl, sym, ap, ◌∙◌, false, Option, none, some, List, [], ◌∷◌, arith, ◌==◌,
  length, ne→==, eq→==, Returns-elim,
}
use yanix.Common.Int.{pos}
use yanix.Queue.{Queue, queue_push, queue_pop}
use yanix.Queue.Fifo.{IsValid, contents, push-Implements, pop-Implements, length-contents}
use yanix.Pipe
use yanix.Sock.{Ptr, SocketPipe, SocketConn, Socket, State, Cmd, ◌>>=◌, pure, put, drop}
use yanix.Sock.Connect.{
  refused, queued, unix_socket_connect, unix_socket_accept, tryconnect_begin, tryconnect_end,
}

put_self : {V : Type 0} → (m : Ptr → Option V) (p : Ptr) (v : V) → put m p v p ≡ some v
put_self m p v = rw (eq→== p p refl) refl

put_ne : {V : Type 0} → (m : Ptr → Option V) (p q : Ptr) (v : V) → q ≢ p → put m p v q ≡ m q
put_ne m p q v ne = rw (ne→== q p ne) refl

-- The client connects, the server accepts, and the client goes on.
abbrev pub handshake : (garbage : ℕ → List ℕ) (client server : Ptr) → Cmd (Option Ptr)
handshake garbage client server = do
  r ← unix_socket_connect garbage client
  elim r [
    | refused _ ↦ pure none
    | queued a ↦ (do
      accepted ← unix_socket_accept server
      _ ← tryconnect_end client a
      pure (some accepted))
  ]

-- An element goes through an empty queue.
record Through (x : ℕ) (q : Queue) : Type 0 where
  q1 : Queue
  q2 : Queue
  pushed : queue_push x q ≡ some (pos 0, q1)
  more : (q1.size == 0) ≡ false
  popped : queue_pop q1 ≡ some (x, q2)
  valid : IsValid q2
  empty : contents q2 ≡ []

queue-Through : (x : ℕ) (q : Queue) → IsValid q → contents q ≡ [] → q.capacity ≢ 0 → Through x q
queue-Through x q h empty room =
    let ((r, q1), push, i) = Returns-elim (push-Implements x h) in
    let ((y, q2), pop, j) = Returns-elim (pop-Implements i.valid) in
    let spare : (length (contents q) == q.capacity) ≡ false =
      ne→== (length (contents q)) q.capacity (λ e. room (sym e ∙ ap length empty)) in
    let held : contents q1 ≡ x ∷ [] = i.contents ∙ rw (spare, empty) refl in
    let zero_index : r ≡ pos 0 = i.result ∙ rw (spare, empty) refl in
    let got : y ≡ x = j.result ∙ rw held refl in
    record {
      q1 = q1;
      q2 = q2;
      pushed = push ∙ ap (λ z. some (z, q1)) zero_index;
      more = ne→== q1.size 0 (λ e. omega (arith, e, length-contents i.valid, ap length held));
      popped = pop ∙ ap (λ z. some (z, q2)) got;
      valid = j.valid;
      empty = j.contents ∙ rw held refl;
    }

-- A new pipe, and then with the flag that the sockets set.
abbrev fresh_pipe : (ℕ → List ℕ) → ℕ → SocketPipe
fresh_pipe garbage flags = record { circbuf = Pipe.pipe_create garbage; flags = flags }

module _ (garbage : ℕ → List ℕ) (s : State) (c l a p1 p2 n : Ptr) (rest : List Ptr)
    (client server : SocketConn) (k : Socket) (at_c : s.conn c ≡ some client)
    (at_l : s.conn l ≡ some server) (same : client.soc ≡ server.soc)
    (at_k : s.socket client.soc ≡ some k) (listens : k.server_lock ≢ 0)
    (heap : s.heap ≡ a ∷ p1 ∷ p2 ∷ n ∷ rest) (apart : p1 ≢ p2) (new : n ≢ c) (others : l ≢ c)
    (t : Through a k.accept_queue) where
  abbrev pipes : Ptr → Option SocketPipe
  pipes =
      put
        (put (put (put s.pipe p1 (fresh_pipe garbage 0)) p2 (fresh_pipe garbage 0)) p1
          (fresh_pipe garbage (2 ^ 14)))
        p2 (fresh_pipe garbage (2 ^ 14))

  -- The state with the connection on the queue.
  abbrev waiting : State
  waiting = record s {
    conn = put s.conn c (record client { client = 1 });
    socket = put s.socket client.soc (record k { accept_queue = t.q1 });
    accept_conn = put s.accept_conn a (record { lock = 1; client_pipe = p1; server_pipe = p2 });
    pipe = pipes;
    heap = n ∷ rest;
  }

  connect-waiting : unix_socket_connect garbage c s ≡ some (queued a, waiting)
  unfolding unix_socket_connect tryconnect_begin
  connect-waiting =
      rw
        (
          at_c,
          at_k,
          ne→== k.server_lock 0 listens,
          heap,
          put_ne (put s.pipe p1 (fresh_pipe garbage 0)) p2 p1 (fresh_pipe garbage 0) apart,
          put_self s.pipe p1 (fresh_pipe garbage 0),
          put_ne (put (put s.pipe p1 (fresh_pipe garbage 0)) p2 (fresh_pipe garbage 0)) p1 p2
              (fresh_pipe garbage (2 ^ 14)) (λ e. apart (sym e)),
          put_self (put s.pipe p1 (fresh_pipe garbage 0)) p2 (fresh_pipe garbage 0),
          put_self s.conn c (record client { client = 1 }),
          at_k,
          t.pushed,
        )
        refl

  -- The state with the connection accepted.
  abbrev accepted : State
  accepted = record s {
    conn =
        put (put s.conn c (record client { client = 1 })) n
          (record server { send_pipe = p1; recv_pipe = p2 });
    socket =
        put (put s.socket client.soc (record k { accept_queue = t.q1 })) client.soc
          (record k { accept_queue = t.q2 });
    accept_conn =
        put (put s.accept_conn a (record { lock = 1; client_pipe = p1; server_pipe = p2 })) a
          (record { lock = 0; client_pipe = p1; server_pipe = p2 });
    pipe = pipes;
    heap = rest;
  }

  accept-accepted : unix_socket_accept l waiting ≡ some (n, accepted)
  unfolding unix_socket_accept
  accept-accepted =
      rw
        (
          put_ne s.conn c l (record client { client = 1 }) others,
          at_l,
          sym same,
          put_self s.socket client.soc (record k { accept_queue = t.q1 }),
          t.more,
          t.popped,
          put_self s.accept_conn a (record { lock = 1; client_pipe = p1; server_pipe = p2 }),
        )
        refl

  -- The state with the client gone on.
  abbrev joined : State
  joined = record accepted {
    conn = put accepted.conn c (record client { client = 1; send_pipe = p2; recv_pipe = p1 });
    accept_conn = drop accepted.accept_conn a;
  }

  end-joined : tryconnect_end c a accepted ≡ some (pos 0, joined)
  unfolding tryconnect_end
  end-joined =
      rw
        (
          put_self (put s.accept_conn a (record { lock = 1; client_pipe = p1; server_pipe = p2 })) a
              (record { lock = 0; client_pipe = p1; server_pipe = p2 }),
          put_ne (put s.conn c (record client { client = 1 })) n c
              (record server { send_pipe = p1; recv_pipe = p2 }) (λ e. new (sym e)),
          put_self s.conn c (record client { client = 1 }),
        )
        refl

  handshake-joined : handshake garbage c l s ≡ some (some n, joined)
  handshake-joined = rw (connect-waiting, accept-accepted, end-joined) refl

-- The two ends of a connection: each sends into the pipe that the other receives from.
pub record Paired (s : State) (client server : Ptr) : Type 0 where
  pub here : SocketConn
  pub there : SocketConn
  pub at_client : s.conn client ≡ some here
  pub at_server : s.conn server ≡ some there
  pub forth : here.send_pipe ≡ there.recv_pipe
  pub back : there.send_pipe ≡ here.recv_pipe
  pub apart : here.send_pipe ≢ here.recv_pipe
  pub live :
      (p q : SocketPipe) × (s.pipe here.send_pipe ≡ some p) × (s.pipe here.recv_pipe ≡ some q)

module _ (garbage : ℕ → List ℕ) (s : State) (c l a p1 p2 n : Ptr) (rest : List Ptr)
    (client server : SocketConn) (k : Socket) (at_c : s.conn c ≡ some client)
    (at_l : s.conn l ≡ some server) (same : client.soc ≡ server.soc)
    (at_k : s.socket client.soc ≡ some k) (listens : k.server_lock ≢ 0)
    (valid : IsValid k.accept_queue) (idle : contents k.accept_queue ≡ [])
    (room : k.accept_queue.capacity ≢ 0) (heap : s.heap ≡ a ∷ p1 ∷ p2 ∷ n ∷ rest) (apart : p1 ≢ p2)
    (new : n ≢ c) (others : l ≢ c) where
  -- A client that connects to a socket that listens, with no other client waiting on its queue, the
  -- server that accepts, and the client that goes on: none of the three faults or waits. The client
  -- and the connection that the server gets send into different pipes, each into the one that the
  -- other receives from, and the queue is empty again. Where `kmalloc` has its next four blocks,
  -- those of the two pipes are different, and the connection of the client is neither that of the
  -- server nor the new one.
  pub handshake-Paired :
      (s' : State) × (k' : Socket) × (handshake garbage c l s ≡ some (some n, s'))
      × Paired s' c n
      × (s'.socket client.soc ≡ some k')
      × IsValid k'.accept_queue
      × (contents k'.accept_queue ≡ [])
  handshake-Paired =
      let t = queue-Through a k.accept_queue valid idle room in
      let end =
        joined garbage s c l a p1 p2 n rest client server k at_c at_l same at_k listens heap apart
          new others t in
      let mid =
        pipes garbage s c l a p1 p2 n rest client server k at_c at_l same at_k listens heap apart
          new others t in
      let k1 : Socket = record k { accept_queue = t.q1 } in
      let k2 : Socket = record k { accept_queue = t.q2 } in
      let there : SocketConn = record server { send_pipe = p1; recv_pipe = p2 } in
      let here : SocketConn = record client { client = 1; send_pipe = p2; recv_pipe = p1 } in
      let early =
        put (put (put s.pipe p1 (fresh_pipe garbage 0)) p2 (fresh_pipe garbage 0)) p1
          (fresh_pipe garbage (2 ^ 14)) in
      let conns = put (put s.conn c (record client { client = 1 })) n there in
      (
        end,
        k2,
        handshake-joined garbage s c l a p1 p2 n rest client server k at_c at_l same at_k listens
            heap apart new others t,
        record {
          here = here;
          there = there;
          at_client = put_self conns c here;
          at_server =
              put_ne conns c n here new
              ∙ put_self (put s.conn c (record client { client = 1 })) n there;
          forth = refl;
          back = refl;
          apart = λ e. apart (sym e);
          live = (
            fresh_pipe garbage (2 ^ 14),
            fresh_pipe garbage (2 ^ 14),
            put_self early p2 (fresh_pipe garbage (2 ^ 14)),
            put_ne early p2 p1 (fresh_pipe garbage (2 ^ 14)) apart
                ∙ put_self (put (put s.pipe p1 (fresh_pipe garbage 0)) p2 (fresh_pipe garbage 0)) p1
                    (fresh_pipe garbage (2 ^ 14)),
          );
        },
        put_self (put s.socket client.soc k1) client.soc k2,
        t.valid,
        t.empty,
      )
