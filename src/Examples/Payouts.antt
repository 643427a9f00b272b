-- ===== src/Examples/Payouts.antt =====
-- Payout runs of a pool with one miner and one mature block.
use not_only_mining_pool.Common.{
  ◌≡◌, ◌≢◌, ◌⊎◌, inr, refl, [], ◌∷◌, Bytes, true, false, none, some, codes, plus, minus,
}
use not_only_mining_pool.Common.Dict.{Dict, lookup, insert, delete}
use not_only_mining_pool.Common.Texts.{text_eq}
use not_only_mining_pool.Storage.Types.{PendingBlock, PaymentUpdate}
use not_only_mining_pool.Storage.Block.{block_text}
use not_only_mining_pool.Payments.Prog.{
  out_of_fuel, in_flight, no_response, no_result, done, Transaction, ok, rpc_error, result,
  get_payout_intent, get_all_pending_blocks, get_all_miner_balances, get_transaction,
  get_round_contrib, check_address, put_payout_intent, send_many, apply_payments,
  set_payout_intent_txid,
}
use not_only_mining_pool.Payments.Split.{
  prop, PaymentManager, sum_shares, split_entries, split_by_shares, sat_to_coin, coin_to_sat,
}
use not_only_mining_pool.Payments.Classify.{find_detail, verdict_of, on_transaction, classify_block}
use not_only_mining_pool.Payments.Settle.{
  Worker, Cache, recipient_ok, valid_recipient, to_send, is_paid, choose, choose_amounts,
  record_amounts, next_withhold, stamp, on_reply, pay, settle,
}
use not_only_mining_pool.Payments.Run.{
  credit, credit_all, on_intent, reconcile, seed_workers, on_shares, attribute_round,
  attribute_mode, attribute, confirm_all, on_verdict, on_dist, sort_blocks, got, apply_then,
  settle_and_apply, pay_matured, process_blocks, process_mode, process_payments,
}
use not_only_mining_pool.Payments.World.{
  World, Outcome, returned, failed, crashed, Runs, returns, fails, crashes, calls,
}
use not_only_mining_pool.Payments.Ledger.{Books, history, recorded}
use not_only_mining_pool.Payments.NoDoublePay.{Lifetime, started, ran, Lifetime-Books}
use not_only_mining_pool.Payments.Recovery.{unstamped_intent_halts, stamped_intent_resumes}
use not_only_mining_pool.Payments.Confirms.{Confirms}
use not_only_mining_pool.Payments.Tries.{withheld_after}
use not_only_mining_pool.Payments.Terminates.{tries_are_enough}
use not_only_mining_pool.Examples.Numbers.{cents}

abbrev pub manager : PaymentManager cents
manager = record {
  pay_mode = prop;
  pplns_window = 0;
  pps_rate = 0;
  min_confirmations = 1;
  checks_validity = false;
  pool_address = codes "pool";
  magnitude = 10000;
  min_payment = 1;
}

abbrev pub block : PendingBlock
block = record {
  hash = codes "block";
  tx_hash = codes "coinbase";
  height = 5;
  finder = [];
  mark = plus 0;
}

abbrev pub mature : Transaction cents
mature = record { confirmations = plus 100; amount = 5000; details = [] }

abbrev pub miner : Bytes
miner = codes "m"

abbrev pub txid : Bytes
txid = codes "tx"

-- All of the reward is paid, and a hundredth less is.
abbrev pub whole : PaymentUpdate cents
whole = record {
  balances = (miner, 0) ∷ [];
  paid = (miner, 5000) ∷ [];
  confirmed = block_text block ∷ [];
  orphaned = [];
  delete_rounds = 5 ∷ [];
  pps_cursor = 0;
}

abbrev pub reduced : PaymentUpdate cents
reduced = record whole { balances = (miner, 50) ∷ []; paid = (miner, 4950) ∷ [] }

abbrev start : World cents
start = record { intent = none; sent = []; applied = [] }

-- The intent was stored and the amounts were sent, and then the run was cut off.
abbrev cut_off : World cents
cut_off = record { intent = some (whole, []); sent = ((miner, 5000) ∷ []) ∷ []; applied = [] }

abbrev stamped_world : World cents
stamped_world = record cut_off { intent = some (whole, txid) }

abbrev reduced_sent : World cents
reduced_sent = record { intent = none; sent = ((miner, 4950) ∷ []) ∷ []; applied = reduced ∷ [] }

cut_off_run : Runs (process_payments manager []) start crashed cut_off
unfolding process_payments reconcile on_intent process_mode process_blocks got sort_blocks
    classify_block on_transaction verdict_of find_detail on_verdict attribute attribute_mode
    attribute_round on_shares split_by_shares sum_shares split_entries on_dist credit_all credit
    seed_workers pay_matured confirm_all settle_and_apply settle choose_amounts is_paid to_send
    valid_recipient recipient_ok choose record_amounts next_withhold pay on_reply sat_to_coin
    coin_to_sat lookup insert delete text_eq
cut_off_run =
    calls {c = get_payout_intent} (ok none) (refl, refl)
      (calls {c = get_all_pending_blocks} (ok (block ∷ [])) refl (
        calls {c = get_all_miner_balances} (ok []) (refl, tt)
          (calls {c = get_transaction (codes "coinbase")} (result mature) refl (
            calls {c = get_round_contrib 5} (ok ((miner, 300) ∷ [])) (refl, (refl, tt))
              (calls {c = check_address miner} (result false) refl (
                calls {c = put_payout_intent whole} (ok tt) refl
                  (calls {c = send_many ((miner, 5000) ∷ [])} (result txid) refl crashes)))))))

-- The wallet cannot cover the fees at first; the second try is paid, stamped and applied.
reduced_run : Runs (process_payments manager []) start (returned ((miner, true) ∷ [])) reduced_sent
unfolding process_payments reconcile on_intent process_mode process_blocks got sort_blocks
    classify_block on_transaction verdict_of find_detail on_verdict attribute attribute_mode
    attribute_round on_shares split_by_shares sum_shares split_entries on_dist credit_all credit
    seed_workers pay_matured confirm_all settle_and_apply settle choose_amounts is_paid to_send
    valid_recipient recipient_ok choose record_amounts next_withhold pay on_reply sat_to_coin
    coin_to_sat apply_then stamp lookup insert delete text_eq
reduced_run =
    calls {c = get_payout_intent} (ok none) (refl, refl)
      (calls {c = get_all_pending_blocks} (ok (block ∷ [])) refl (
        calls {c = get_all_miner_balances} (ok []) (refl, tt)
          (calls {c = get_transaction (codes "coinbase")} (result mature) refl (
            calls {c = get_round_contrib 5} (ok ((miner, 300) ∷ [])) (refl, (refl, tt))
              (calls {c = check_address miner} (result false) refl (
                calls {c = put_payout_intent whole} (ok tt) refl (
                  calls {c = send_many ((miner, 5000) ∷ [])} (rpc_error (minus 5)) refl (
                    calls {c = put_payout_intent reduced} (ok tt) refl (
                      calls {c = send_many ((miner, 4950) ∷ [])} (result txid) refl (
                        calls {c = set_payout_intent_txid txid} (ok tt) refl
                          (calls {c = apply_payments reduced} (ok tt) refl returns)))))))))))

halted_run : Runs (process_payments manager []) cut_off (failed in_flight) cut_off
unfolding process_payments reconcile on_intent
halted_run = calls {c = get_payout_intent} (ok (some (whole, []))) (refl, refl) fails

resumed_run :
    Runs
      (reconcile manager)
      stamped_world
      (returned tt)
      (record stamped_world { intent = none; applied = whole ∷ [] })
unfolding reconcile on_intent
resumed_run =
    calls {c = get_payout_intent} (ok (some (whole, txid))) (refl, refl)
      (calls {c = apply_payments whole} (ok tt) refl returns)

two_runs : Lifetime manager start cut_off
two_runs = ran [] (ran [] started cut_off_run) halted_run

Lifetime-Books_example : Books cut_off
unfolding history recorded
Lifetime-Books_example = Lifetime-Books manager (λ a. refl) two_runs

abbrev halted : Outcome Cache
halted = failed in_flight

abbrev settled : Outcome Cache
settled = returned ((miner, true) ∷ [])

unstamped_intent_halts_example :
    (cut_off.intent ≡ some (whole, []))
    × (cut_off.applied ≡ start.applied)
    × ((cut_off.sent ≡ start.sent) ⊎ (cut_off.sent ≡ ((miner, 5000) ∷ []) ∷ start.sent))
    × (cut_off ≡ cut_off)
    × ((c : Cache) → halted ≢ returned c)
unfolding on_reply
unstamped_intent_halts_example =
    unstamped_intent_halts manager false (done tt) tt whole ((miner, 5000) ∷ []) no_result [] start
      (record start { intent = some (whole, []) }) cut_off cut_off cut_off (failed no_response)
      halted refl (inr refl) (inr (refl, fails)) halted_run

stamped_intent_resumes_example :
    record stamped_world { intent = none; applied = whole ∷ [] }
    ≡ record stamped_world { intent = none; applied = whole ∷ [] }
stamped_intent_resumes_example =
    stamped_intent_resumes manager stamped_world whole 116 (120 ∷ [])
      (record stamped_world { intent = none; applied = whole ∷ [] }) tt refl resumed_run

tries_are_enough_example : settled ≢ failed out_of_fuel
unfolding withheld_after next_withhold
tries_are_enough_example = tries_are_enough manager refl [] start reduced_sent settled reduced_run

abbrev workers : Dict Worker
workers = (miner, record { address = miner; balance = 0; reward = 5000; sent = 0 }) ∷ []
