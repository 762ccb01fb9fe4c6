-- ===== src/Agent/Level.antt =====
-- The level's number, and the workers that main starts.
use ioswarm.Common.{
  ℕ, List, Bytes, codes, bytes_eq, ◌&&◌, ltb, if◌then◌else◌, length, get_elem?, Option, none, some,
}
use ioswarm.Common.Text.{to_upper}

-- parseLevel: the wire's number of a level.
unfoldable pub parse_level : Bytes → ℕ
parse_level s =
    let level = to_upper s in
    if bytes_eq level (codes "L1")
    then 0
    else if bytes_eq level (codes "L3")
    then 2
    else if bytes_eq level (codes "L4")
    then 3
    else 1

abbrev pub comma : ℕ
comma = 44

-- The entry of a list that is there by its index.
abbrev pub entry_or : Bytes → Option Bytes → Bytes
entry_or key none = key
entry_or key (some own) = own

-- `if idx < len(apiKeys) && len(apiKeys) > 1`
unfoldable pub worker_key : Bytes → List Bytes → ℕ → Bytes
worker_key api_key api_keys idx =
    if ltb idx (length api_keys) && ltb 1 (length api_keys)
    then entry_or api_key (get_elem? api_keys idx)
    else api_key
