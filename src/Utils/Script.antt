-- ===== src/Utils/Script.antt =====
-- utils/utils.go: the scripts that pay an address. Base58 decoding is a third-party package's: `decode`
-- returns what FastBase58Decoding does, and `none` for its error.
use not_only_mining_pool.Common.{
  ◌-◌, Option, none, some, [], ◌∷◌, ◌++◌, Bytes, length, take, drop, replicate, ◌==◌, if◌then◌else◌,
}
use not_only_mining_pool.Utils.Hex.{hex_decode, is_hex}

-- PublicKeyToScript. A text of another length panics; one that is not hexadecimal leaves zeros.
unfoldable pub public_key_to_script : Bytes → Option Bytes
public_key_to_script key =
    if length key == 66
    then some
        (0x21 ∷ (hex_decode key ++ (replicate (33 - length (hex_decode key)) 0 ++ (0xac ∷ []))))
    else none

-- `decoded[1:len(decoded)-4]` of a decoding of 25 bytes: without the version and the checksum.
unfoldable pub address_payload : (Bytes → Option Bytes) → Bytes → Option Bytes
address_payload decode addr = elim (decode addr) [
  | none ↦ none
  | some decoded ↦ if length decoded == 25 then some (take 20 (drop 1 decoded)) else none
]

-- P2PKHAddressToScript
unfoldable pub p2pkh_address_to_script : (Bytes → Option Bytes) → Bytes → Option Bytes
unfolding address_payload
p2pkh_address_to_script decode addr = elim (address_payload decode addr) [
  | none ↦ none
  | some key ↦ some ((0x76 ∷ 0xa9 ∷ 0x14 ∷ []) ++ (key ++ (0x88 ∷ 0xac ∷ [])))
]

-- P2SHAddressToScript
unfoldable pub p2sh_address_to_script : (Bytes → Option Bytes) → Bytes → Option Bytes
unfolding address_payload
p2sh_address_to_script decode addr = elim (address_payload decode addr) [
  | none ↦ none
  | some key ↦ some ((0xa9 ∷ 0x14 ∷ []) ++ (key ++ (0x87 ∷ [])))
]

-- MiningKeyToScript
unfoldable pub mining_key_to_script : Bytes → Option Bytes
mining_key_to_script key =
    if is_hex key
    then some ((0x76 ∷ 0xa9 ∷ 0x14 ∷ []) ++ (hex_decode key ++ (0x88 ∷ 0xac ∷ [])))
    else none

-- ScriptPubKeyToScript
unfoldable pub script_pub_key_to_script : Bytes → Option Bytes
script_pub_key_to_script addr = if is_hex addr then some (hex_decode addr) else none
