-- ===== src/Storage/Payouts/Cursor.antt =====
-- storage/redis.go, the cursor of the pps mode: who writes it, and what GetPPSCursor reads after that.
use not_only_mining_pool.Common.{
  ℕ, zero, suc, ◌<◌, ◌≤◌, ◌^◌, ◌≡◌, refl, ◌∙◌, ap, Bool, true, false, Option, none, some, List, [],
  ◌∷◌, Bytes, All, plus, arith, if◌then◌else◌,
}
use not_only_mining_pool.Common.Texts.{text_eq}
use not_only_mining_pool.Common.Dict.{range}
use not_only_mining_pool.Common.Decimal.{format_int}
use not_only_mining_pool.Common.Decimal.RoundTrip.{parse_int64-format_int}
use not_only_mining_pool.Common.Float.{Float64}
use not_only_mining_pool.Jobs.Share.{ShareError, Share}
use not_only_mining_pool.Storage.Types.{PaymentUpdate}
use not_only_mining_pool.Storage.Redis.{
  FloatText, Value, string, text_of, Command, on, incr, del, set, zremrangebyscore, written, Redis,
  exec_all,
}
use not_only_mining_pool.Storage.Redis.After.{
  Misses, after_all, after_all-append, after_all-else, after-on, value-exec_all,
}
use not_only_mining_pool.Storage.Keys.{
  apart, shares_seq, pplns_log, cursor_key, intent_key, blocks_confirmed, blocks_orphaned,
}
use not_only_mining_pool.Storage.Shares.{
  Storage, log_writes, valid_writes, put_error, put_share_now, share_writer,
}
use not_only_mining_pool.Storage.Shares.Beside.{
  Beside, index_writes-Misses, refused-Misses, tail-Misses,
}
use not_only_mining_pool.Storage.Reads.{get_pps_cursor, cursor_of}
use not_only_mining_pool.Storage.Payouts.{
  balance_writes, paid_writes, settled_writes, cursor_writes, apply_payments,
}
use not_only_mining_pool.Storage.Payouts.Paid.{
  All-append, balance_writes-Misses, paid_writes-Misses, settled_writes-Misses,
  round_deletes-Misses,
}
use not_only_mining_pool.Storage.Payouts.Cut.{front_writes, apply_payments-fronts}

module _ {fl : Float64} (texts : FloatText fl) (s : Storage) where
  cursor-Beside : Beside texts s (cursor_key s.coin)
  unfolding text_eq
  cursor-Beside = record {
    miners = apart s.coin _ _ refl;
    rigs = λ m. apart s.coin _ _ refl;
    current = apart s.coin _ _ refl;
    round = λ h. apart s.coin _ _ refl;
    valid = apart s.coin _ _ refl;
    invalid = apart s.coin _ _ refl;
    counters = apart s.coin _ _ refl;
    pool = apart s.coin _ _ refl;
    hashes = λ m. apart s.coin _ _ refl;
    rig = λ m r. apart s.coin _ _ refl;
    pending = apart s.coin _ _ refl;
  }

  module _ (add_float : Bytes → Bytes → Option Bytes) where
    front_writes-Misses :
        (u : PaymentUpdate fl) → All (Misses (cursor_key s.coin)) (front_writes texts s add_float u)
    unfolding front_writes text_eq
    front_writes-Misses u =
        All-append _ (balance_writes texts s (range u.balances)) _
          (balance_writes-Misses texts s _ (range u.balances) (apart s.coin _ _ refl))
          (All-append _ (paid_writes texts s (range u.paid)) _
            (paid_writes-Misses texts s _ (range u.paid) (apart s.coin _ _ refl))
            (All-append _ (settled_writes texts s (blocks_confirmed s.coin) u.confirmed) _
              (settled_writes-Misses texts s _ _ u.confirmed (apart s.coin _ _ refl)
                (apart s.coin _ _ refl))
              (All-append _ (settled_writes texts s (blocks_orphaned s.coin) u.orphaned) _
                (settled_writes-Misses texts s _ _ u.orphaned (apart s.coin _ _ refl)
                  (apart s.coin _ _ refl))
                (round_deletes-Misses texts s _ u.delete_rounds (λ h. apart s.coin _ _ refl)))))

    -- A cursor of zero leaves what is there.
    unfoldable pub moved_to : ℕ → Value → Value
    moved_to zero v = v
    moved_to (suc n) v = string (format_int (plus (suc n)))

    read-moved_to :
        (n c : ℕ) (v : Value)
        → cursor_of (text_of v) ≡ some (plus c)
        → c ≤ n
        → n < 2 ^ 63
        → cursor_of (text_of (moved_to n v)) ≡ some (plus n)
    unfolding moved_to text_of cursor_of
    read-moved_to zero c v e low b =
        let same : c ≡ 0 = omega arith in e ∙ ap (λ k. some (plus k)) same
    read-moved_to (suc n) c v e low b = parse_int64-format_int (suc n) b

    cursor_writes-cursor :
        (n : ℕ) (m : Bytes → Value)
        → after_all add_float (cursor_writes texts s n) m (cursor_key s.coin)
          ≡ moved_to n (m (cursor_key s.coin))
    unfolding cursor_writes after_all moved_to text_eq written
    cursor_writes-cursor zero m = refl
    cursor_writes-cursor (suc n) m =
        after_all-else add_float (on (pplns_log s.coin) (zremrangebyscore (suc n)) ∷ [])
          (cursor_key s.coin) _ (apart s.coin _ _ refl, tt)
        ∙ after-on add_float (cursor_key s.coin) (set (format_int (plus (suc n)))) m

    -- The transaction stores its cursor.
    pub apply_payments-cursor :
        (u : PaymentUpdate fl) (m : Bytes → Value)
        → after_all add_float (apply_payments texts s u) m (cursor_key s.coin)
          ≡ moved_to u.pps_cursor (m (cursor_key s.coin))
    unfolding text_eq
    apply_payments-cursor u m =
        let m' : Bytes → Value = after_all add_float (front_writes texts s add_float u) m in
        ap (λ cs. after_all add_float cs m (cursor_key s.coin))
          (apply_payments-fronts texts s add_float u)
        ∙ ap (λ g. g (cursor_key s.coin))
            (after_all-append add_float (front_writes texts s add_float u) _ m
              ∙ after_all-append add_float (cursor_writes texts s u.pps_cursor) _ m')
        ∙ after_all-else add_float (on (intent_key s.coin) del ∷ []) (cursor_key s.coin) _
            (apart s.coin _ _ refl, tt)
        ∙ cursor_writes-cursor u.pps_cursor m'
        ∙ ap (moved_to u.pps_cursor) (
            after_all-else add_float (front_writes texts s add_float u) (cursor_key s.coin) m
              (front_writes-Misses u))

  if-All :
      (b : Bool) (j : Bytes) (cs : List Command)
      → All (Misses j) cs
      → All (Misses j) (if b then [] else cs)
  if-All true j cs h = tt
  if-All false j cs h = h

  log_writes-Misses :
      (share : Share fl) (seq : ℕ) → All (Misses (cursor_key s.coin)) (log_writes texts s share seq)
  unfolding log_writes text_eq
  log_writes-Misses share seq =
      (apart s.coin _ _ refl, if-All s.pps_mode _ _ (apart s.coin _ _ refl, tt))

  module _ (redis : Redis) where
    valid_writes-Misses :
        (share : Share fl) (accepted : Bool) (seq now : ℕ)
        → All (Misses (cursor_key s.coin)) (valid_writes texts s share accepted seq now)
    unfolding valid_writes
    valid_writes-Misses share accepted seq now =
        All-append _ _ _ (index_writes-Misses texts s _ share cursor-Beside) (
          All-append _ _ _ (log_writes-Misses share seq)
            (tail-Misses texts s _ share accepted seq now cursor-Beside))

    put_error-cursor :
        (o : Option ShareError) (share : Share fl) (accepted : Bool) (now : ℕ) (db : redis.Db)
        → redis.value (put_error texts s redis o share accepted now db) (cursor_key s.coin)
          ≡ redis.value db (cursor_key s.coin)
    unfolding put_error text_eq after_all
    put_error-cursor none share accepted now db =
        ap (λ g. g (cursor_key s.coin)) (value-exec_all redis _ _)
        ∙ after_all-else redis.add_float _ (cursor_key s.coin) _
            (valid_writes-Misses share accepted _ now)
        ∙ ap (λ g. g (cursor_key s.coin)) (redis.value-exec _ db)
        ∙ after_all-else redis.add_float (on (shares_seq s.coin) incr ∷ []) (cursor_key s.coin)
            (redis.value db) (apart s.coin _ _ refl, tt)
    put_error-cursor (some e) share accepted now db =
        ap (λ g. g (cursor_key s.coin)) (value-exec_all redis _ db)
        ∙ after_all-else redis.add_float _ (cursor_key s.coin) (redis.value db)
            (refused-Misses texts s _ share accepted cursor-Beside)

    -- The share writer leaves it.
    pub share_writer-cursor :
        (jobs : List (Share fl × Bool × ℕ)) (db : redis.Db)
        → redis.value (share_writer texts s redis jobs db) (cursor_key s.coin)
          ≡ redis.value db (cursor_key s.coin)
    unfolding share_writer put_share_now
    share_writer-cursor [] db = refl
    share_writer-cursor ((share, accepted, now) ∷ jobs) db =
        share_writer-cursor jobs _ ∙ put_error-cursor share.error share accepted now db

    -- The cursor that is read behind shares that were recorded and a transaction.
    pub get_pps_cursor-apply_payments :
        (jobs : List (Share fl × Bool × ℕ)) (db : redis.Db) (c : ℕ) (u : PaymentUpdate fl)
        → get_pps_cursor redis s db ≡ some (plus c)
        → c ≤ u.pps_cursor
        → u.pps_cursor < 2 ^ 63
        → get_pps_cursor redis s
            (exec_all redis (apply_payments texts s u) (share_writer texts s redis jobs db))
          ≡ some (plus u.pps_cursor)
    unfolding get_pps_cursor
    get_pps_cursor-apply_payments jobs db c u e low b =
        ap (λ g. cursor_of (text_of (g (cursor_key s.coin)))) (value-exec_all redis _ _)
        ∙ ap (λ v. cursor_of (text_of v))
            (apply_payments-cursor redis.add_float u _
              ∙ ap (moved_to redis.add_float u.pps_cursor) (share_writer-cursor jobs db))
        ∙ read-moved_to redis.add_float u.pps_cursor c _ e low b
