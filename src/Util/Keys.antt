-- ===== src/Util/Keys.antt =====
-- Composite keys: packages/shared/src/util/keys.ts.
pub mod Collisions
pub mod Decode
use wallet_bot.Base.{
  ℕ, ◌+◌, Bool, true, false, List, [], ◌∷◌, ◌++◌, Option, none, some, ◌==◌, ◌||◌, ◌&&◌, leb,
  if◌then◌else◌, map,
}
use wallet_bot.Base.Text.{Text, codes, is_empty}
use wallet_bot.Domain.Enums.{Network, tron, ton, bsc, NetworkEnv, mainnet, testnet}

-- `text.includes(SEP)`.
abbrev pub has_separator : Text → Bool
has_separator [] = false
has_separator (c ∷ s) = c == b':' || has_separator s

-- `text.replace(/\\/g, '\\\\').replace(/:/g, '\\:')`.
abbrev pub escape : Text → Text
escape [] = []
escape (c ∷ s) =
    if c == b'\\'
    then b'\\' ∷ b'\\' ∷ escape s
    else if c == b':'
    then b'\\' ∷ b':' ∷ escape s
    else c ∷ escape s

unfoldable pub segment : Text → Text
segment text = if has_separator text then escape text else text

abbrev join_tail : List Text → Text
join_tail [] = []
join_tail (s ∷ parts) = b':' ∷ (s ++ join_tail parts)

abbrev pub intersperse : List Text → Text
intersperse [] = []
intersperse (s ∷ parts) = s ++ join_tail parts

abbrev pub segments : List Text → List Text
segments [] = []
segments (s ∷ parts) = segment s ∷ segments parts

-- `parts.map(segment).join(SEP)`; numbers are given by their text.
unfoldable pub join : List Text → Text
join parts = intersperse (segments parts)

abbrev pub network_name : Network → Text
network_name tron = codes "tron"
network_name ton = codes "ton"
network_name bsc = codes "bsc"

abbrev pub env_name : NetworkEnv → Text
env_name mainnet = codes "mainnet"
env_name testnet = codes "testnet"

-- `toLowerCase` on the ASCII letters that symbols consist of.
abbrev pub lower : Text → Text
lower [] = []
lower (c ∷ s) = (if leb b'A' c && leb c b'Z' then c + 32 else c) ∷ lower s

-- A contract address that is absent or empty stands for the native asset.
abbrev asset_part : Option Text → Text → Text
asset_part none symbol = codes "native-" ++ lower symbol
asset_part (some []) symbol = codes "native-" ++ lower symbol
asset_part (some (c ∷ s)) symbol = c ∷ s

unfoldable pub asset_key : Network → NetworkEnv → Option Text → Text → Text
asset_key network env contract_address symbol =
    join (network_name network ∷ env_name env ∷ asset_part contract_address symbol ∷ [])

unfoldable pub chain_event_key : Network → NetworkEnv → Text → Text → Text
chain_event_key network env tx_hash log_index =
    join (codes "chain" ∷ network_name network ∷ env_name env ∷ tx_hash ∷ log_index ∷ [])

unfoldable pub scan_cursor_key : Network → NetworkEnv → Text → Text
scan_cursor_key network env address =
    join (codes "scan" ∷ network_name network ∷ env_name env ∷ address ∷ [])

-- The type of a notification is given by its name; a variant that is absent or empty is left out.
unfoldable pub notification_key : Text → Text → Option Text → Text
notification_key type subject_id none = join (codes "notify" ∷ type ∷ subject_id ∷ [])
notification_key type subject_id (some []) = join (codes "notify" ∷ type ∷ subject_id ∷ [])
notification_key type subject_id (some (c ∷ s)) =
    join (codes "notify" ∷ type ∷ subject_id ∷ (c ∷ s) ∷ [])

unfoldable pub job_key : Text → List Text → Text
job_key type parts = join (codes "job" ∷ type ∷ parts)

unfoldable pub rate_limit_key : Text → Text → Text
rate_limit_key bucket subject = join (codes "rl" ∷ bucket ∷ subject ∷ [])

unfoldable pub scheduled_execution_key : Text → Text → Text
scheduled_execution_key scheduled_payment_id attempt =
    join (codes "sched" ∷ scheduled_payment_id ∷ attempt ∷ [])

unfoldable pub send_request_key : Text → Text → Text
send_request_key user_id client_key = join (codes "send" ∷ user_id ∷ client_key ∷ [])
