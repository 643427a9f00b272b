-- ===== src/Examples/Stores.antt =====
-- The payout run of one miner over a redis in memory.
use not_only_mining_pool.Common.{
  ℕ, ◌≡◌, refl, true, false, none, some, [], ◌∷◌, Bytes, codes, if◌then◌else◌, plus, minus, Signed,
  ◌++◌, ◌*◌, arith, List, Bool-cases, inl, inr, text_eq_iff, subst, sym,
}
use not_only_mining_pool.Common.Texts.{text_eq}
use not_only_mining_pool.Common.Dict.{Dict, Distinct, lookup, insert, delete}
use not_only_mining_pool.Common.Decimal.{
  format_uint, parse_uint, digits, parse_digits, is_digit, parse_int, positive_of, format_int,
}
use not_only_mining_pool.Common.Parts.{join_with, split_on}
use not_only_mining_pool.Utils.Search.{contains}
use not_only_mining_pool.Storage.Block.{
  colon, block_text, new_pending_block_from_string, block_of_parts, with_height, with_finder,
}
use not_only_mining_pool.Storage.Redis.{
  Value, missing, scored, entries, hash, members, after, exec_all, updated, written, hash_after,
  with_fields, field, is_member, first_after, Fields, Members,
}
use not_only_mining_pool.Storage.Redis.After.{after_all}
use not_only_mining_pool.Storage.Keys.{pool_shares, blocks_pending, round_at, payouts_key}
use not_only_mining_pool.Storage.Shares.{Storage, log_member}
use not_only_mining_pool.Storage.Payouts.{
  apply_payments, put_payout_intent, set_payout_intent_txid, get_payout_intent, intent_of,
}
use not_only_mining_pool.Storage.Reads.Members.{forged_difficulty}
use not_only_mining_pool.Storage.Block.RoundTrip.{new_pending_block_from_string-block_text}
use not_only_mining_pool.Storage.Stats.{get_pool_hashrate}
use not_only_mining_pool.Storage.Stats.Laws.{get_pool_hashrate_of_times}
use not_only_mining_pool.Storage.Reads.{
  share_of, parse_loop, get_all_miner_balances, get_all_pending_blocks, parse_blocks,
  get_round_contrib,
}
use not_only_mining_pool.Storage.Site.{Site, Served, returns, calls, Service, started, ran}
use not_only_mining_pool.Payments.Prog
use not_only_mining_pool.Payments.Prog.{Result, ok, rpc_error, result}
use not_only_mining_pool.Storage.Payouts.Paid.{total, intent-apply_payments}
use not_only_mining_pool.Storage.Site.Told.{ToldAll}
use not_only_mining_pool.Storage.Site.Steps.{Implements, Served-Runs}
use not_only_mining_pool.Storage.Site.Books.{
  IsFresh, IsFresh-Implements, fresh_world, payouts_are_sent,
}
use not_only_mining_pool.Payments.Ledger.{history}
use not_only_mining_pool.Payments.World.{World, Runs, returned}
use not_only_mining_pool.Payments.Run.{
  credit, credit_all, on_intent, reconcile, seed_workers, on_shares, attribute_round,
  attribute_mode, attribute, confirm_all, on_verdict, on_dist, sort_blocks, got, apply_then,
  settle_and_apply, pay_matured, process_blocks, process_mode, process_payments,
}
use not_only_mining_pool.Payments.Split.{
  sum_shares, split_entries, split_by_shares, sat_to_coin, coin_to_sat,
}
use not_only_mining_pool.Payments.Classify.{find_detail, verdict_of, on_transaction, classify_block}
use not_only_mining_pool.Payments.Settle.{
  recipient_ok, valid_recipient, to_send, is_paid, choose, choose_amounts, record_amounts,
  next_withhold, stamp, on_reply, pay, settle,
}
use not_only_mining_pool.Examples.Numbers.{cents}
use not_only_mining_pool.Examples.Payouts.{manager, block, mature, miner, txid, whole, reduced}
use not_only_mining_pool.Examples.Memory.{
  cent_texts, memory, known, known_law, known_none, unmarshal_known, marshal_known, text_if,
  same_update, same_amounts, same_texts,
}

abbrev store : Storage
store = record { coin = codes "c"; pps_mode = false; log_cap = 3 }

-- One block is pending, and its round has one miner.
abbrev opened : Bytes → Value
opened k =
    if text_eq k (blocks_pending (codes "c"))
    then members (λ x. contains x (block_text block ∷ []))
    else if text_eq k (round_at (codes "c") (codes "5"))
    then hash (λ f. lookup f ((miner, codes "300") ∷ []))
    else missing

abbrev hashes : Bytes → Dict Bytes
hashes k = if text_eq k (round_at (codes "c") (codes "5")) then (miner, codes "300") ∷ [] else []

abbrev sets : Bytes → List Bytes
sets k = if text_eq k (blocks_pending (codes "c")) then block_text block ∷ [] else []

opened_hashes : (k : Bytes) → Distinct (hashes k) × Fields (hashes k) (opened k)
unfolding field lookup text_eq
opened_hashes k = elim (Bool-cases (text_eq k (blocks_pending (codes "c")))) [
  | inl pending ↦
      let e : k ≡ blocks_pending (codes "c") = (text_eq_iff k _).0 pending in
      subst (λ j. Distinct (hashes j) × Fields (hashes j) (opened j)) (sym e) (tt, λ f. refl)
  | inr not_pending ↦ elim (Bool-cases (text_eq k (round_at (codes "c") (codes "5")))) [
    | inl round ↦ rw (not_pending, round) ((refl, tt), λ f. refl)
    | inr other ↦ rw (not_pending, other) (tt, λ f. refl)
  ]
]

opened-sets : (k : Bytes) → Members (sets k) (opened k)
unfolding is_member contains
opened-sets k = elim (Bool-cases (text_eq k (blocks_pending (codes "c")))) [
  | inl pending ↦ rw pending (λ x. refl)
  | inr not_pending ↦ elim (Bool-cases (text_eq k (round_at (codes "c") (codes "5")))) [
    | inl round ↦ rw (not_pending, round) (λ x. refl)
    | inr other ↦ rw (not_pending, other) (λ x. refl)
  ]
]

abbrev site : Site cents memory
site = record { db = opened; sent = [] }

-- The first try is not paid, the second is.
abbrev paid_db : Bytes → Value
paid_db = exec_all memory (apply_payments cent_texts store reduced) (
    exec_all memory (set_payout_intent_txid store txid) (
      exec_all memory (put_payout_intent store (2 ∷ []))
        (exec_all memory (put_payout_intent store (1 ∷ [])) opened)))

abbrev paid_site : Site cents memory
paid_site = record { db = paid_db; sent = ((miner, 4950) ∷ []) ∷ [] }

Served-run :
    Served memory cent_texts known store
      (process_payments manager [])
      site
      (returned ((miner, true) ∷ []))
      paid_site
unfolding process_payments reconcile on_intent process_mode process_blocks got sort_blocks
    classify_block on_transaction verdict_of find_detail on_verdict attribute attribute_mode
    attribute_round on_shares split_by_shares sum_shares split_entries on_dist credit_all credit
    seed_workers pay_matured confirm_all settle_and_apply settle choose_amounts is_paid to_send
    valid_recipient recipient_ok choose record_amounts next_withhold pay on_reply sat_to_coin
    coin_to_sat apply_then stamp lookup insert delete text_eq exec_all apply_payments
    put_payout_intent set_payout_intent_txid after updated written hash_after with_fields field
    is_member first_after format_uint digits parse_uint parse_digits is_digit get_payout_intent
    intent_of parse_loop get_all_miner_balances get_all_pending_blocks parse_blocks
    get_round_contrib new_pending_block_from_string block_of_parts with_height with_finder split_on
    parse_int positive_of block_text join_with format_int contains marshal_known text_if same_update
    same_amounts same_texts
Served-run =
    calls {c = Prog.get_payout_intent} (ok none) (refl, (hashes, opened_hashes, refl))
      (calls {c = Prog.get_all_pending_blocks} (ok (block ∷ [])) (refl, (sets, opened-sets, refl))
        (calls {c = Prog.get_all_miner_balances} (ok []) (refl, (hashes, opened_hashes, refl))
          (calls {c = Prog.get_transaction (codes "coinbase")} (result mature) refl (
            calls {c = Prog.get_round_contrib 5} (ok ((miner, 300) ∷ []))
              (refl, (hashes, opened_hashes, refl))
              (calls {c = Prog.check_address miner} (result false) refl (
                calls {c = Prog.put_payout_intent whole} (ok tt) refl (
                  calls {c = Prog.send_many ((miner, 5000) ∷ [])} (rpc_error (minus 5)) refl (
                    calls {c = Prog.put_payout_intent reduced} (ok tt) refl (
                      calls {c = Prog.send_many ((miner, 4950) ∷ [])} (result txid) refl (
                        calls {c = Prog.set_payout_intent_txid txid} (ok tt) refl
                          (calls {c = Prog.apply_payments reduced} (ok tt) refl returns)))))))))))

IsFresh-site : IsFresh memory cent_texts known store known_law known_none site
unfolding text_eq
IsFresh-site = record { no_intent = refl; no_payouts = refl; none_sent = refl }

paid-Service : Service memory cent_texts known store manager site paid_site
paid-Service = ran [] started Served-run

payouts_are_sent_example :
    field (paid_db (payouts_key (codes "c"))) miner
    ≡ total cent_texts store memory.add_float (history miner (((miner, 4950) ∷ []) ∷ []))
unfolding exec_all after_all
payouts_are_sent_example =
    payouts_are_sent memory cent_texts known store known_law known_none IsFresh-site paid-Service
      (intent-apply_payments cent_texts store memory.add_float reduced _) miner

Served-Runs_example :
    (v : World cents) × Runs
      (process_payments manager [])
      fresh_world
      (returned ((miner, true) ∷ []))
      v
    × Implements memory cent_texts known store known_law known_none paid_site v
    × ToldAll memory cent_texts known store Served-run
unfolding unmarshal_known
Served-Runs_example =
    Served-Runs memory cent_texts known store known_law known_none fresh_world
      (IsFresh-Implements memory cent_texts known store known_law known_none site IsFresh-site)
      Served-run

forged_difficulty_example :
    share_of cent_texts (log_member (miner ++ (colon ∷ codes "9000000")) (cent_texts.format 1) 7)
    ≡ some (miner, 9000000)
unfolding parse_uint parse_digits is_digit
forged_difficulty_example =
    forged_difficulty cent_texts miner (codes "9000000") 9000000 1 7 (refl, tt)
      (refl, (refl, (refl, (refl, (refl, (refl, (refl, tt))))))) refl

new_pending_block_from_string-block_text_example :
    new_pending_block_from_string (block_text block) ≡ some block
new_pending_block_from_string-block_text_example =
    new_pending_block_from_string-block_text block (refl, (refl, (refl, (refl, (refl, tt)))))
      (refl, (refl, (refl, (refl, (refl, (refl, (refl, (refl, tt)))))))) tt (omega arith)
      (omega arith)

-- Two shares are recorded, and the rate is asked for a second of 2023.
abbrev counted : Bytes → Value
counted k =
    if text_eq k (pool_shares (codes "c"))
    then scored ((codes "100", 1700000000) ∷ (codes "200", 1700000001) ∷ [])
    else missing

abbrev seconds : Signed → ℕ
seconds (plus n) = n * 100
seconds (minus n) = 0

get_pool_hashrate_of_times_example :
    get_pool_hashrate memory store cent_texts seconds
      (plus 1699999940)
      (plus 1700000000)
      (plus 60)
      counted
    ≡ some 0
unfolding entries text_eq
get_pool_hashrate_of_times_example =
    get_pool_hashrate_of_times memory store cent_texts seconds 1699999940 1700000000 (plus 60)
      counted (omega arith)
