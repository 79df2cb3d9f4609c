-- ===== src/Rpc/Config.antt =====
-- The file of addresses (src/rpc/mprpcconfig.cpp), as the lines that `fgets` brings, each with its
-- newline.
pub mod Entry
use kvstorage.Base.{
  Bytes, ℕ, zero, suc, ◌+◌, ◌-◌, Bool, true, false, not, ◌&&◌, ◌==◌, ltb, if◌then◌else◌, List, [],
  ◌∷◌, length, take, drop, Option, none, some, bytes_eq,
}
use kvstorage.Common.Assoc.{lookup}
use kvstorage.Rpc.Provider.{insert_new}

-- The characters are bytes: 32 is the space, 35 `#`, 61 `=`, and 10 the newline.
-- `str.find(c)`
unfoldable pub find_char : ℕ → Bytes → Option ℕ
find_char c [] = none
find_char c (x ∷ xs) =
    let rest = find_char c xs in
    if x == c then some 0 else (elim rest [ none ↦ none | some i ↦ some (suc i) ])

abbrev pub all_spaces : Bytes → Bool
all_spaces [] = true
all_spaces (x ∷ xs) = (x == 32) && all_spaces xs

abbrev pub drop_front : Bytes → Bytes
drop_front [] = []
drop_front (x ∷ xs) = let rest = drop_front xs in if x == 32 then rest else x ∷ xs

abbrev pub drop_back : Bytes → Bytes
drop_back [] = []
drop_back (x ∷ xs) = if (x == 32) && all_spaces xs then [] else x ∷ drop_back xs

abbrev pub trim_front : Bytes → Bytes
trim_front s = if all_spaces s then s else drop_front s

abbrev pub trim_back : Bytes → Bytes
trim_back s = if all_spaces s then s else drop_back s

-- `Trim`, which leaves a string of spaces as it is.
unfoldable pub trim : Bytes → Bytes
trim s = trim_back (trim_front s)

-- `str.substr(idx + 1, endidx - idx - 1)`, to the end where there is no newline behind `=`.
unfoldable pub value_between : Bytes → ℕ → Option ℕ → Bytes
value_between s i none = drop (i + 1) s
value_between s i (some e) = if ltb i e then take (e - i - 1) (drop (i + 1) s) else drop (i + 1) s

unfoldable pub starts_comment : Bytes → Bool
starts_comment [] = true
starts_comment (x ∷ xs) = x == 35

-- The key and the value around the place of `=`.
unfoldable pub entry_at : Bytes → Option ℕ → Option (Bytes × Bytes)
entry_at s none = none
entry_at s (some i) = some (trim (take i s), trim (value_between s i (find_char 10 s)))

-- A line without the spaces around it, where it is an entry.
unfoldable pub entry_of : Bytes → Option (Bytes × Bytes)
entry_of s = if starts_comment s then none else entry_at s (find_char 61 s)

unfoldable pub parse_line : Bytes → Option (Bytes × Bytes)
parse_line line = entry_of (trim line)

-- `LoadConfigFile`, for a file that could be opened: each call of `fgets` brings one element of the
-- list.
unfoldable pub load_config_file : List (Bytes × Bytes) → List Bytes → List (Bytes × Bytes)
load_config_file m [] = m
load_config_file m (line ∷ lines) = elim (parse_line line) [
  | none ↦ load_config_file m lines
  | some (key, value) ↦ load_config_file (insert_new m key value) lines
]

-- `Load`
unfoldable pub load : List (Bytes × Bytes) → Bytes → Bytes
load m key = elim (lookup bytes_eq m key) [ none ↦ [] | some v ↦ v ]
