-- ===== src/Sock.antt =====
-- kernel/net/socket/unix.c: sockets between tasks, over pipes and a queue of pending connections.
-- A command gives no result (`none`) where it goes through a null or dangling pointer, and where it
-- waits: a wait is one look at what it waits for, so that what runs is the step after it.
pub mod Connect
pub mod Handshake
mod Tests
use yanix.Common.{
  ℕ, zero, suc, ◌^◌, ◌/◌, ◌%◌, ◌+◌, ◌-◌, Bool, true, false, not, ◌&&◌, ◌||◌, Option, none, some,
  List, [], ◌∷◌, ◌==◌, if◌then◌else◌,
}
use yanix.Common.Int.{ℤ, pos, negsuc}
use yanix.Ring.{RingBuffer, nonblock}
use yanix.Pipe.{Outcome, broken, call, returned, waits, pipe_read_raw, pipe_write_raw}
use yanix.Pipe
use yanix.Queue.{Queue, queue_create, queue_push, queue_pop}

abbrev pub Ptr : Type 0
Ptr = ℕ

-- `struct pipe`, its ring buffer in it. Nothing reads `flags`.
pub record SocketPipe : Type 0 where
  pub circbuf : RingBuffer
  pub flags : ℕ

-- `struct accept_conn`, a connection that is not accepted yet.
pub record AcceptConn : Type 0 where
  pub lock : ℕ
  pub client_pipe : Ptr
  pub server_pipe : Ptr

-- `struct socket_conn`, whose `create_socket` is `unix_socket_create`.
pub record SocketConn : Type 0 where
  pub client : ℕ
  pub soc : Ptr
  pub type : ℕ
  pub protocol : ℕ
  pub send_pipe : Ptr
  pub recv_pipe : Ptr

-- `struct socket`, its queue in it, without the function pointers, which are those of unix.c.
pub record Socket : Type 0 where
  pub protocol : ℕ
  pub type : ℕ
  pub server_lock : ℕ
  pub server_backlog : ℤ
  pub accept_queue : Queue

-- Memory by pointer, and the pointers that `kmalloc` hands out next.
pub record State : Type 0 where
  pub conn : Ptr → Option SocketConn
  pub socket : Ptr → Option Socket
  pub accept_conn : Ptr → Option AcceptConn
  pub pipe : Ptr → Option SocketPipe
  pub heap : List Ptr
  pub errno : ℕ

abbrev pub Cmd : Type 0 → Type 0
Cmd A = State → Option (A × State)

abbrev pub pure : {A : Type 0} → A → Cmd A
pure a s = some (a, s)

abbrev pub and_then : {A B : Type 0} → Option (A × State) → (A → Cmd B) → Option (B × State)
and_then none f = none
and_then (some (a, s)) f = f a s

infixl 5 ◌>>=◌ ◌>>◌
abbrev pub ◌>>=◌ : {A B : Type 0} → Cmd A → (A → Cmd B) → Cmd B
m >>= f = λ s. and_then (m s) f

abbrev pub ◌>>◌ : {B : Type 0} → Cmd (Unit {0}) → Cmd B → Cmd B
m >> k = m >>= λ _. k

abbrev pub fault : {A : Type 0} → Cmd A
fault s = none

abbrev pub or_fault : {A : Type 0} → Option A → Cmd A
or_fault none s = none
or_fault (some a) s = some (a, s)

-- `*p = v` in one of the maps.
abbrev pub put : {V : Type 0} → (Ptr → Option V) → Ptr → V → Ptr → Option V
put m p v q = if q == p then some v else m q

abbrev pub load_conn : Ptr → Cmd SocketConn
load_conn p s = or_fault (s.conn p) s

abbrev pub store_conn : Ptr → SocketConn → Cmd (Unit {0})
store_conn p c s = some (tt, record s { conn = put s.conn p c })

abbrev pub load_socket : Ptr → Cmd Socket
load_socket p s = or_fault (s.socket p) s

abbrev pub store_socket : Ptr → Socket → Cmd (Unit {0})
store_socket p k s = some (tt, record s { socket = put s.socket p k })

abbrev pub load_accept : Ptr → Cmd AcceptConn
load_accept p s = or_fault (s.accept_conn p) s

abbrev pub store_accept : Ptr → AcceptConn → Cmd (Unit {0})
store_accept p a s = some (tt, record s { accept_conn = put s.accept_conn p a })

abbrev pub load_pipe : Ptr → Cmd SocketPipe
load_pipe p s = or_fault (s.pipe p) s

abbrev pub store_pipe : Ptr → SocketPipe → Cmd (Unit {0})
store_pipe p k s = some (tt, record s { pipe = put s.pipe p k })

-- `kfree(p)`.
abbrev pub drop : {V : Type 0} → (Ptr → Option V) → Ptr → Ptr → Option V
drop m p q = if q == p then none else m q

abbrev pub free_accept : Ptr → Cmd (Unit {0})
free_accept p s = some (tt, record s { accept_conn = drop s.accept_conn p })

-- `pipe_destroy`.
abbrev pub free_pipe : Ptr → Cmd (Unit {0})
free_pipe p s = some (tt, record s { pipe = drop s.pipe p })

abbrev pub set_errno : ℕ → Cmd (Unit {0})
set_errno e s = some (tt, record s { errno = e })

abbrev pub next_block : Cmd Ptr
next_block s = elim s.heap [ [] ↦ none | b ∷ bs ↦ some (b, record s { heap = bs }) ]

-- EADDRINUSE and ECONNREFUSED of errno.h.
abbrev pub eaddrinuse : ℕ
eaddrinuse = 98

abbrev pub econnrefused : ℕ
econnrefused = 111

unfoldable pub unix_socket_listen : (soc : Ptr) (backlog : ℤ) → Cmd ℤ
unix_socket_listen soc backlog = do
  c ← load_conn soc
  k ← load_socket c.soc
  if not (k.server_lock == 0) then (do set_errno eaddrinuse; pure (negsuc 0)) else (do
    store_socket c.soc (record k { server_backlog = backlog; server_lock = 1 })
    pure (pos 0))

-- What a call on a pipe ends with: the ring buffer is stored, and `errno` where it is set.
abbrev pub finish : {A : Type 0} → Ptr → Option SocketPipe → A → Outcome (ℤ × A) → Cmd (ℤ × A)
finish p k nothing (broken e) = do set_errno e; pure (negsuc 0, nothing)
finish p k nothing (call waits) = fault
finish p none nothing (call (returned done)) = fault
finish p (some k) nothing (call (returned done)) = do
  store_pipe p (record k { circbuf = done.ring })
  (λ s. some (done.result, record s { errno = elim done.errno [ none ↦ s.errno | some e ↦ e ] }))

-- The call of a routine on the ring buffer behind a pipe, which the null pointer does not have.
abbrev pub on_pipe :
    {A : Type 0} → Ptr → A → (Option RingBuffer → Option (Outcome (ℤ × A))) → Cmd (ℤ × A)
on_pipe p nothing f =
    if p == 0
    then (do out ← or_fault (f none); finish p none nothing out)
    else (do k ← load_pipe p; out ← or_fault (f (some k.circbuf)); finish p (some k) nothing out)

-- The two results of a write, to be one.
abbrev pub with_unit : Option (Outcome ℤ) → Option (Outcome (ℤ × Unit {0}))
with_unit none = none
with_unit (some (broken e)) = some (broken e)
with_unit (some (call waits)) = some (call waits)
with_unit (some (call (returned done))) =
    some (
      call (returned (record { result = (done.result, tt); errno = done.errno; ring = done.ring })))

unfoldable pub unix_socket_send : (conn : Ptr) (buf : List ℕ) → Cmd ℤ
unix_socket_send conn buf = if conn == 0 then pure (negsuc 0) else (do
  c ← load_conn conn
  if c.soc == 0
      then pure (negsuc 0)
      else (do (n, _) ← on_pipe c.send_pipe tt (λ rb. with_unit (pipe_write_raw rb buf 0)); pure n))

unfoldable pub unix_socket_recv : (conn : Ptr) (size : ℕ) → Cmd (ℤ × List ℕ)
unix_socket_recv conn size = if conn == 0 then pure (negsuc 0, []) else (do
  c ← load_conn conn
  if c.soc == 0
      then pure (negsuc 0, [])
      else on_pipe c.recv_pipe [] (λ rb. pipe_read_raw rb size 0))

-- `pipe_create`; `garbage` is what the block of its ring buffer held.
abbrev pub new_pipe : (garbage : ℕ → List ℕ) → Cmd Ptr
new_pipe garbage = do
  p ← next_block
  store_pipe p (record { circbuf = Pipe.pipe_create garbage; flags = 0 })
  pure p

-- `pipe->flags ^= O_NONBLOCK`.
abbrev pub toggle_nonblock : Ptr → Cmd (Unit {0})
toggle_nonblock p = do
  k ← load_pipe p
  store_pipe p
      (record k { flags = if nonblock k.flags then k.flags - 2 ^ 14 else k.flags + 2 ^ 14 })
