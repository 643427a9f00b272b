-- ===== src/Transactions/Generation/ScriptSig.antt =====
-- The coinbase transaction that CreateGeneration writes, with an extra nonce put between its halves.
use not_only_mining_pool.Common.{
  ℕ, ◌+◌, ◌%◌, ◌^◌, ◌-◌, ◌≡◌, refl, sym, ap, ◌∙◌, Bool, true, false, Option, some, List, [], ◌∷◌,
  ◌++◌, Bytes, codes, length, replicate, append_assoc, length-append, arith, if◌then◌else◌,
}
use not_only_mining_pool.Common.Texts.{text_eq}
use not_only_mining_pool.Common.Fallible.{>>=-eq-some}
use not_only_mining_pool.Common.Float.{Float64}
use not_only_mining_pool.Utils.Hex.{hex_decode}
use not_only_mining_pool.Utils.Number.{serialize_number}
use not_only_mining_pool.Utils.Pack.{put_le, pack_uint32_le}
use not_only_mining_pool.Utils.Reverse.Laws.{reverse_bytes-eq-reverse}
use not_only_mining_pool.Utils.Varint.{var_int_bytes, serialize_string}
use not_only_mining_pool.Jobs.Template.{Template}
use not_only_mining_pool.Jobs.Job.{uint256_bytes_from_hash}
use not_only_mining_pool.Transactions.Outputs.{Recipient, generate_output_transactions}
use not_only_mining_pool.Transactions.Generation.{
  tx_version, tx_timestamp, tx_comment, script_sig_part1, script_sig_part2, generation_start,
  generation_end, create_generation,
}

-- The version of the transaction.
abbrev pub coinbase_version : Template → Bool → ℕ
coinbase_version t tx_messages =
    if text_eq t.coinbase_payload [] then (if tx_messages then 2 else 1) else 0x50003

-- The script of its input: a height, flags, a time, the extra nonce behind its length, and a signature.
abbrev pub coinbase_script : Bytes → Bytes → Bytes → Bytes → Bytes
coinbase_script height flags time nonce =
    height ++ (flags ++ (time ++ ((length nonce % 256 ∷ nonce) ++ (12 ∷ codes "/by Command/"))))

-- The transaction: its version, a timestamp of a POS coin, one input of no transaction with that script,
-- the outputs, no lock time, a comment and a payload.
abbrev pub coinbase_transaction : Template → Bytes → Bool → Bytes → Bytes → Bytes
coinbase_transaction t reward tx_messages script outputs =
    pack_uint32_le (coinbase_version t tx_messages)
    ++ ((if text_eq reward (codes "POS") then pack_uint32_le t.cur_time else [])
        ++ ((1 ∷ (replicate 32 0 ++ replicate 4 255))
            ++ (var_int_bytes (length script)
                ++ (script
                    ++ (replicate 4 0
                        ++ (outputs
                            ++ (replicate 4 0
                                ++ ((if tx_messages then 10 ∷ codes "by Command" else [])
                                    ++ (if text_eq (hex_decode t.coinbase_payload) []
                                        then []
                                        else var_int_bytes (length (hex_decode t.coinbase_payload))
                                          ++ hex_decode t.coinbase_payload)))))))))

version_of :
    (p : Bytes) (tx_messages : Bool)
    → tx_version tx_messages p ≡ (if text_eq p [] then (if tx_messages then 2 else 1) else 0x50003)
unfolding tx_version text_eq
version_of [] tx_messages = refl
version_of (c ∷ p) tx_messages = refl

no_transaction : uint256_bytes_from_hash [] ≡ replicate 32 0
unfolding uint256_bytes_from_hash hex_decode
no_transaction = reverse_bytes-eq-reverse (replicate 32 0)

one_input : var_int_bytes 1 ≡ 1 ∷ []
unfolding var_int_bytes put_le
one_input = refl

last_index : pack_uint32_le (2 ^ 32 - 1) ≡ replicate 4 255
unfolding pack_uint32_le put_le
last_index = refl

zeros : pack_uint32_le 0 ≡ replicate 4 0
unfolding pack_uint32_le put_le
zeros = refl

signature : script_sig_part2 ≡ 12 ∷ codes "/by Command/"
unfolding script_sig_part2 serialize_string put_le
signature = refl

comment :
    (tx_messages : Bool)
    → tx_comment tx_messages ≡ (if tx_messages then 10 ∷ codes "by Command" else [])
unfolding tx_comment serialize_string put_le
comment true = refl
comment false = refl

start-eq :
    (t : Template) (reward : Bytes) (tx_messages : Bool)
    → generation_start t reward tx_messages
      ≡ pack_uint32_le (coinbase_version t tx_messages)
        ++ ((if text_eq reward (codes "POS") then pack_uint32_le t.cur_time else [])
            ++ (1 ∷ (replicate 32 0 ++ replicate 4 255)))
unfolding generation_start tx_timestamp
start-eq t reward tx_messages =
    rw (version_of t.coinbase_payload tx_messages, one_input, no_transaction, last_index) refl

end-eq :
    (t : Template) (tx_messages : Bool) (outputs : Bytes)
    → generation_end t tx_messages outputs
      ≡ replicate 4 0
        ++ (outputs
            ++ (replicate 4 0
                ++ ((if tx_messages then 10 ∷ codes "by Command" else [])
                    ++ (if text_eq (hex_decode t.coinbase_payload) []
                        then []
                        else var_int_bytes (length (hex_decode t.coinbase_payload))
                          ++ hex_decode t.coinbase_payload))))
unfolding generation_end
end-eq t tx_messages outputs = rw (comment tx_messages, zeros) refl

-- The two halves with a nonce between them.
joined :
    (a b c v h f time : Bytes) (k : ℕ) (nonce sig rest : Bytes)
    → ((a ++ (b ++ c)) ++ (v ++ (h ++ (f ++ (time ++ (k ∷ [])))))) ++ (nonce ++ (sig ++ rest))
      ≡ a ++ (b ++ (c ++ (v ++ ((h ++ (f ++ (time ++ ((k ∷ nonce) ++ sig)))) ++ rest))))
joined a b c v h f time k nonce sig rest = simp append_assoc

assembled :
    (t : Template) (reward : Bytes) (tx_messages : Bool)
    (height flags time nonce outputs part1 first second : Bytes) (n : ℕ)
    → height ++ (flags ++ (time ++ (length nonce % 256 ∷ []))) ≡ part1
    → generation_start t reward tx_messages ++ (var_int_bytes n ++ part1) ≡ first
    → script_sig_part2 ++ generation_end t tx_messages outputs ≡ second
    → n ≡ length part1 + length nonce + length script_sig_part2
    → first ++ (nonce ++ second)
      ≡ coinbase_transaction t reward tx_messages (coinbase_script height flags time nonce) outputs
assembled t reward tx_messages height flags time nonce outputs part1 first second n front one two
      size =
    let last : Bytes = 12 ∷ codes "/by Command/" in
    let counted : Bytes = length nonce % 256 ∷ nonce in
    let count : Bytes = length nonce % 256 ∷ [] in
    let long : n ≡ length (coinbase_script height flags time nonce) = omega (
      arith,
      size,
      ap length front,
      ap length signature,
      length-append height (flags ++ (time ++ count)),
      length-append flags (time ++ count),
      length-append time count,
      length-append height (flags ++ (time ++ (counted ++ last))),
      length-append flags (time ++ (counted ++ last)),
      length-append time (counted ++ last),
      length-append nonce last,
    ) in
    rw
      (
        ← one,
        ← two,
        ← front,
        long,
        start-eq t reward tx_messages,
        end-eq t tx_messages outputs,
        signature,
      )
      (joined (pack_uint32_le (coinbase_version t tx_messages)) _ _
        (var_int_bytes (length (coinbase_script height flags time nonce))) height flags time
        (length nonce % 256) nonce last _)

module _ (decode : Bytes → Option Bytes) (fl : Float64) where
  -- Where CreateGeneration returns, its halves with an extra nonce of the placeholder's size between them are
  -- one coinbase transaction: the version, a POS coin's timestamp, one input of no transaction, whose
  -- script stands behind its own length and has the height, the template's flags, the time, the
  -- extra nonce behind its length and the pool's signature, the outputs of the template, no lock time, the
  -- comment and the payload.
  pub create_generation_lem :
      (t : Template) (now : ℕ) (public_key placeholder reward : Bytes) (tx_messages : Bool)
      (recipients : List (Recipient decode fl)) (extra_nonce : Bytes) {first second : Bytes}
      → create_generation decode fl t now public_key placeholder reward tx_messages recipients
        ≡ some (first, second)
      → length extra_nonce ≡ length placeholder
      → (height : Bytes) × (time : Bytes) × (outputs : Bytes) × (serialize_number t.height
          ≡ some height)
        × (serialize_number now ≡ some time)
        × (generate_output_transactions decode fl public_key recipients t ≡ some outputs)
        × (first ++ (extra_nonce ++ second)
            ≡ coinbase_transaction t reward tx_messages
                (coinbase_script height (hex_decode t.coinbase_aux_flags) time extra_nonce)
                outputs)
  unfolding create_generation script_sig_part1
  create_generation_lem t now public_key placeholder reward tx_messages recipients extra_nonce
        {first} {second} e size =
      let (part1, e1, rest) = >>=-eq-some (script_sig_part1 t now placeholder) _ e in
      let (height, eh, rest1) = >>=-eq-some (serialize_number t.height) _ e1 in
      let (time, et, whole) = >>=-eq-some (serialize_number now) _ rest1 in
      let (outputs, e2, last) =
        >>=-eq-some (generate_output_transactions decode fl public_key recipients t) _ rest in
      let flags : Bytes = hex_decode t.coinbase_aux_flags in
      let front : height ++ (flags ++ (time ++ (length extra_nonce % 256 ∷ []))) ≡ part1 =
        ap (λ k. height ++ (flags ++ (time ++ (k % 256 ∷ [])))) size ∙ cc whole in
      (
        height,
        time,
        outputs,
        eh,
        et,
        e2,
        assembled t reward tx_messages height flags time extra_nonce outputs part1 first second
            (length part1 + length placeholder + length script_sig_part2) front (cc last) (cc last)
            (ap (λ k. length part1 + k + length script_sig_part2) (sym size)),
      )
