-- ===== src/Tests/Descriptors.antt =====
-- Contexts of file descriptors at concrete tables.
use kvstorage.Base.{
  ℕ, ◌<◌, ◌≡◌, ◌≢◌, arith, Bool, true, false, ◌==◌, if◌then◌else◌, [], ◌∷◌, get_elem?, none, some,
  ok,
}
use kvstorage.FdManager.{System, FdManager, get_fd}
use kvstorage.FdManager.Table.{get_fd-creates}

-- Descriptor 70 is a socket.
abbrev os : System
os = record { stat = λ n. if n == 70 then some true else none; nonblock = λ n. false }

abbrev table : FdManager
table = record { fd_ctxs = none ∷ none ∷ none ∷ none ∷ []; objects = [] }

get_fd-creates_example :
    (os' : System) × (m' : FdManager) × (c : ℕ) × (get_fd os table (some 70) true
      ≡ ok (os', m', some c))
    × (get_elem? m'.fd_ctxs 70 ≡ some (some c))
    × ((j : ℕ) → j ≢ 70 → j < 4 → get_elem? m'.fd_ctxs j ≡ get_elem? table.fd_ctxs j)
    × ((b : Bool) → get_fd os' m' (some 70) b ≡ ok (os', m', some c))
get_fd-creates_example = get_fd-creates os table 70 (omega arith) (omega arith)
