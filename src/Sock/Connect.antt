-- ===== src/Sock/Connect.antt =====
-- kernel/net/socket/unix.c: how connections are made, and sockets.
use yanix.Common.{ℕ, not, Option, none, some, List, ◌==◌, if◌then◌else◌}
use yanix.Common.Int.{ℤ, pos, negsuc}
use yanix.Queue.{queue_create, queue_push, queue_pop}
use yanix.Sock.{
  Ptr, Cmd, pure, fault, or_fault, load_conn, store_conn, load_socket, store_socket, load_accept,
  store_accept, free_accept, free_pipe, set_errno, next_block, econnrefused, new_pipe,
  toggle_nonblock, ◌>>=◌, ◌>>◌,
}

-- `unix_socket_tryconnect` up to its wait: the connection that is queued, or nothing where the queue
-- is full.
unfoldable pub tryconnect_begin : (garbage : ℕ → List ℕ) (conn : Ptr) → Cmd (Option Ptr)
tryconnect_begin garbage conn = do
  accept_conn ← next_block
  client_pipe ← new_pipe garbage
  server_pipe ← new_pipe garbage
  store_accept accept_conn
      (record { lock = 1; client_pipe = client_pipe; server_pipe = server_pipe })
  toggle_nonblock client_pipe
  toggle_nonblock server_pipe
  c ← load_conn conn
  k ← load_socket c.soc
  (r, q) ← or_fault (queue_push accept_conn k.accept_queue)
  store_socket c.soc (record k { accept_queue = q })
  elim r [
    | pos _ ↦ pure (some accept_conn)
    | negsuc _ ↦ (do
      free_pipe client_pipe
      free_pipe server_pipe
      free_accept accept_conn
      pure none)
  ]

-- `unix_socket_tryconnect` from `while (accept_conn->lock);` on.
unfoldable pub tryconnect_end : (conn accept_conn : Ptr) → Cmd ℤ
tryconnect_end conn accept_conn = do
  a ← load_accept accept_conn
  if not (a.lock == 0) then fault else (do
    c ← load_conn conn
    store_conn conn (record c { send_pipe = a.server_pipe; recv_pipe = a.client_pipe })
    free_accept accept_conn
    pure (pos 0))

-- How `unix_socket_connect` goes on: with the result, or with the wait for an accept.
pub data Connecting : Type 0 where
  refused : ℤ → Connecting
  queued : (accept_conn : Ptr) → Connecting

unfoldable pub unix_socket_connect : (garbage : ℕ → List ℕ) (conn : Ptr) → Cmd Connecting
unix_socket_connect garbage conn = do
  c ← load_conn conn
  k ← load_socket c.soc
  if k.server_lock == 0 then (do set_errno econnrefused; pure (refused (negsuc 0))) else (do
    store_conn conn (record c { client = 1 })
    r ← tryconnect_begin garbage conn
    elim r [ none ↦ pure (refused (negsuc 0)) | some a ↦ pure (queued a) ])

-- `while (!q->size);` and what comes after it.
unfoldable pub unix_socket_accept : (conn : Ptr) → Cmd Ptr
unix_socket_accept conn = do
  c ← load_conn conn
  k ← load_socket c.soc
  if k.accept_queue.size == 0 then fault else (do
    (ac, q) ← or_fault (queue_pop k.accept_queue)
    store_socket c.soc (record k { accept_queue = q })
    accepted ← next_block
    a ← load_accept ac
    store_conn accepted (record c { send_pipe = a.client_pipe; recv_pipe = a.server_pipe })
    store_accept ac (record a { lock = 0 })
    pure accepted)

-- `queue_create(-1)`; `garbage` is what the block of its buffer held.
unfoldable pub unix_socket_setup : (garbage : ℕ → List ℕ) (type protocol : ℕ) → Cmd Ptr
unix_socket_setup garbage type protocol = do
  soc ← next_block
  store_socket soc (record {
    protocol = protocol;
    type = type;
    server_lock = 0;
    server_backlog = pos 0;
    accept_queue = queue_create (negsuc 0) garbage;
  })
  pure soc

unfoldable pub unix_socket : (type protocol : ℕ) → Cmd Ptr
unix_socket type protocol = do
  conn ← next_block
  store_conn conn (record {
    client = 0;
    soc = 0;
    type = type;
    protocol = protocol;
    send_pipe = 0;
    recv_pipe = 0;
  })
  pure conn
