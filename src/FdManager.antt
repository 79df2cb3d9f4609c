-- ===== src/FdManager.antt =====
-- The contexts of file descriptors (src/fiber/fd_manager.cpp). A negative descriptor is `none`. The
-- contexts are objects behind shared pointers, so the table holds addresses into a list of objects;
-- the operating system's side is the kinds of the open descriptors and their non-blocking flags.
pub mod Table
use kvstorage.Base.{
  ℕ, ◌+◌, ◌-◌, ◌*◌, ◌/◌, Bool, true, false, not, ◌||◌, ltb, leb, ◌==◌, if◌then◌else◌, List, [], ◌∷◌,
  ◌++◌, length, replicate, set, drop, at, Option, none, some, Outcome, ok, fault, out_of_range,
  ◌>>=◌,
}

-- `stat` is `none` where `fstat` fails, and else whether the descriptor is a socket.
pub record System : Type 0 where
  pub stat : ℕ → Option Bool
  pub nonblock : ℕ → Bool

pub record FdCtx : Type 0 where
  pub is_init : Bool
  pub is_socket : Bool
  pub sys_nonblock : Bool
  pub user_nonblock : Bool
  pub is_closed : Bool
  pub fd : ℕ
  pub recv_timeout : ℕ
  pub send_timeout : ℕ

pub record FdManager : Type 0 where
  pub fd_ctxs : List (Option ℕ)
  pub objects : List FdCtx

-- `fcntl(fd, F_SETFL, flags | O_NONBLOCK)`, where the flag is not set yet
unfoldable pub set_nonblock : System → ℕ → System
set_nonblock os fd = record os { nonblock = λ n. if n == fd then true else os.nonblock n }

-- `SO_RCVTIMEO` is `true`.
unfoldable pub set_timeout : FdCtx → Bool → ℕ → FdCtx
set_timeout ctx receive times =
    if receive then record ctx { recv_timeout = times } else record ctx { send_timeout = times }

unfoldable pub get_timeout : FdCtx → Bool → ℕ
get_timeout ctx receive = if receive then ctx.recv_timeout else ctx.send_timeout

-- The type of the descriptor is looked up, where `fstat` succeeds.
unfoldable pub look_up : System → FdCtx → FdCtx
look_up os ctx = elim (os.stat ctx.fd) [
  | none ↦ ctx
  | some socket ↦ record ctx { is_init = true; is_socket = socket }
]

-- `FdCtx::init`; its result is `is_init` of the context.
unfoldable pub init_ctx : System → FdCtx → System × FdCtx
init_ctx os ctx =
    let found = look_up os ctx in
    if ctx.is_init
    then (os, ctx)
    else (if found.is_socket
        then (
          if os.nonblock ctx.fd then os else set_nonblock os ctx.fd,
          record found { sys_nonblock = true },
        )
        else (os, found))

unfoldable pub new_ctx : System → ℕ → System × FdCtx
new_ctx os fd = init_ctx os (record {
  is_init = false;
  is_socket = false;
  sys_nonblock = false;
  user_nonblock = false;
  is_closed = false;
  fd = fd;
  recv_timeout = 0;
  send_timeout = 0;
})

-- `FdManager()`
unfoldable pub new_manager : FdManager
new_manager = record { fd_ctxs = replicate 64 none; objects = [] }

-- `resize` to a size that is not smaller.
unfoldable pub grow : List (Option ℕ) → ℕ → List (Option ℕ)
grow table n = table ++ replicate (n - length table) none

-- The part of `get` under the write lock; `fd * 1.5` is cut off to an integer.
unfoldable pub add_ctx : System → FdManager → ℕ → Outcome (System × FdManager × Option ℕ)
add_ctx os m fd = do
  let (os', ctx) = new_ctx os fd
  let table = if leb (length m.fd_ctxs) fd then grow m.fd_ctxs (fd * 3 / 2) else m.fd_ctxs
  _ ← at table fd
  ok (
    os',
    record { fd_ctxs = set table fd (some (length m.objects)); objects = m.objects ++ ctx ∷ [] },
    some (length m.objects),
  )

-- `get` for a descriptor that is not negative. The code gives up its read lock before it takes the
-- write lock; here no other thread comes in between.
unfoldable pub find_ctx : System → FdManager → ℕ → Bool → Outcome (System × FdManager × Option ℕ)
find_ctx os m fd auto_create =
    let added = add_ctx os m fd in
    let looked = do
      ctx ← at m.fd_ctxs fd
      elim ctx [
        | some c ↦ ok (os, m, some c)
        | none ↦ if auto_create then added else ok (os, m, none)
      ]
    in if ltb (length m.fd_ctxs) fd
      then (if auto_create then added else ok (os, m, none))
      else looked

-- `FdManager::get`: the address of the context; `none` is the null pointer.
unfoldable pub get_fd :
    System → FdManager → Option ℕ → Bool → Outcome (System × FdManager × Option ℕ)
get_fd os m none auto_create = ok (os, m, none)
get_fd os m (some fd) auto_create = find_ctx os m fd auto_create

-- `FdManager::del`: a negative descriptor is below the size too, and no place of the table.
unfoldable pub del_fd : FdManager → Option ℕ → Outcome FdManager
del_fd m none = fault out_of_range
del_fd m (some fd) =
    ok (if ltb fd (length m.fd_ctxs) then record m { fd_ctxs = set m.fd_ctxs fd none } else m)
