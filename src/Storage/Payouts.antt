-- ===== src/Storage/Payouts.antt =====
-- storage/redis.go: the result of a payout run, and its intent.
pub mod Paid
pub mod Cut
pub mod Cursor
pub mod Once
use not_only_mining_pool.Common.{
  ℕ, zero, suc, Bool, true, false, Option, none, some, List, [], ◌∷◌, ◌++◌, Bytes, Signed, plus,
  codes, map,
}
use not_only_mining_pool.Common.Dict.{Dict, lookup, range}
use not_only_mining_pool.Common.Decimal.{format_uint, format_int}
use not_only_mining_pool.Common.Float.{Float64}
use not_only_mining_pool.Storage.Types.{PaymentUpdate}
use not_only_mining_pool.Storage.Redis.{
  FloatText, hset, hincrbyfloat, zremrangebyscore, set, del, Command, on, smove, Redis,
}
use not_only_mining_pool.Storage.Keys.{
  pplns_log, round_at, blocks_pending, blocks_confirmed, blocks_orphaned, balances_key, payouts_key,
  intent_key, cursor_key,
}
use not_only_mining_pool.Storage.Shares.{Storage}

-- encoding/json's Marshal and Unmarshal of a PaymentUpdate: `none` is an error, of a number that is
-- not finite or of a text that is no JSON of an update.
pub record Json (fl : Float64) : Type 0 where
  pub marshal : PaymentUpdate fl → Option Bytes
  pub unmarshal : Bytes → Option (PaymentUpdate fl)

module _ {fl : Float64} (texts : FloatText fl) (s : Storage) where
  open fl use {F}

  unfoldable pub balance_writes : Dict F → List Command
  balance_writes [] = []
  balance_writes ((miner, bal) ∷ m) =
      on (balances_key s.coin) (hset ((miner, texts.format bal) ∷ [])) ∷ balance_writes m

  unfoldable pub paid_writes : Dict F → List Command
  paid_writes [] = []
  paid_writes ((miner, paid) ∷ m) =
      on (payouts_key s.coin) (hincrbyfloat miner (texts.format paid)) ∷ paid_writes m

  unfoldable pub settled_writes : Bytes → List Bytes → List Command
  settled_writes dst [] = []
  settled_writes dst (b ∷ bs) = smove (blocks_pending s.coin) dst b ∷ settled_writes dst bs

  unfoldable pub round_deletes : List ℕ → List Command
  round_deletes [] = []
  round_deletes (h ∷ hs) = on (round_at s.coin (format_uint h)) del ∷ round_deletes hs

  unfoldable pub cursor_writes : ℕ → List Command
  cursor_writes zero = []
  cursor_writes (suc n) =
      on (cursor_key s.coin) (set (format_int (plus (suc n))))
      ∷ on (pplns_log s.coin) (zremrangebyscore (suc n))
      ∷ []

  -- The transaction of ApplyPayments.
  unfoldable pub apply_payments : PaymentUpdate fl → List Command
  apply_payments u =
      balance_writes (range u.balances)
      ++ (paid_writes (range u.paid)
          ++ (settled_writes (blocks_confirmed s.coin) u.confirmed
              ++ (settled_writes (blocks_orphaned s.coin) u.orphaned
                  ++ (round_deletes u.delete_rounds
                      ++ (cursor_writes u.pps_cursor ++ (on (intent_key s.coin) del ∷ []))))))

abbrev pub update_field : Bytes
update_field = codes "update"

abbrev pub txid_field : Bytes
txid_field = codes "txid"

module _ (s : Storage) where
  -- PutPayoutIntent, of an update that Marshal takes: its text.
  unfoldable pub put_payout_intent : Bytes → List Command
  put_payout_intent b =
      on (intent_key s.coin) (hset ((update_field, b) ∷ (txid_field, []) ∷ [])) ∷ []

  -- SetPayoutIntentTxid
  unfoldable pub set_payout_intent_txid : Bytes → List Command
  set_payout_intent_txid txid = on (intent_key s.coin) (hset ((txid_field, txid) ∷ [])) ∷ []

  -- DelPayoutIntent
  unfoldable pub del_payout_intent : List Command
  del_payout_intent = on (intent_key s.coin) del ∷ []

-- A field of a Go map of texts; a missing one is the empty text.
unfoldable pub text_at : Bytes → Dict Bytes → Bytes
text_at k m = elim (lookup k m) [ none ↦ [] | some v ↦ v ]

module _ {fl : Float64} (json : Json fl) where
  unfoldable pub intent_of : Dict Bytes → Option (Option (PaymentUpdate fl × Bytes))
  intent_of [] = some none
  intent_of (e ∷ m) = elim (json.unmarshal (text_at update_field (e ∷ m))) [
    | none ↦ none
    | some u ↦ some (some (u, text_at txid_field (e ∷ m)))
  ]

  -- GetPayoutIntent, on what HGETALL answers at a key: an error, no intent, or the intent.
  unfoldable pub get_payout_intent :
      Storage → (Bytes → Dict Bytes) → Option (Option (PaymentUpdate fl × Bytes))
  get_payout_intent s hgetall = intent_of (hgetall (intent_key s.coin))
