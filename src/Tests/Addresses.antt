-- ===== src/Tests/Addresses.antt =====
-- A file of addresses in which a key stands twice.
use kvstorage.Base.{◌≡◌, ◌≢◌, ℕ, refl, [], ◌∷◌, arith}
use kvstorage.Rpc.Config.{load, load_config_file}
use kvstorage.Rpc.Config.Entry.{Plain, line_of, load-load_config_file}

plain : (c : ℕ) → c ≢ 32 → c ≢ 35 → c ≢ 61 → c ≢ 10 → Plain c
plain c a b d e = (a, b, d, e)

load-load_config_file_example :
    load
      (load_config_file []
        (line_of (97 ∷ 98 ∷ []) (49 ∷ []) ∷ line_of (97 ∷ 98 ∷ []) (50 ∷ []) ∷ []))
      (97 ∷ 98 ∷ [])
    ≡ 49 ∷ []
load-load_config_file_example =
    load-load_config_file [] 97 (98 ∷ []) (49 ∷ []) (line_of (97 ∷ 98 ∷ []) (50 ∷ []) ∷ [])
      (
        plain 97 (omega arith) (omega arith) (omega arith) (omega arith),
        (plain 98 (omega arith) (omega arith) (omega arith) (omega arith), tt),
      )
      (plain 49 (omega arith) (omega arith) (omega arith) (omega arith), tt) refl
