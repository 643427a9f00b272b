-- ===== src/Storage/Shares/Recorded.antt =====
-- storage/redis.go, putShareNow and shareWriter in the pps mode: what the queue leaves in the share log.
use not_only_mining_pool.Common.{
  ℕ, ◌+◌, ◌≤◌, ◌<◌, ◌^◌, ◌≡◌, refl, sym, subst, ap, ◌∙◌, inr, Bool, true, Option, none, some, List,
  [], ◌∷◌, ◌++◌, append_assoc, append-nil, Bytes, plus, arith, length,
}
use not_only_mining_pool.Common.Texts.{text_eq}
use not_only_mining_pool.Common.Decimal.{format_int}
use not_only_mining_pool.Common.Float.{Float64}
use not_only_mining_pool.Jobs.Share.{ShareError, Share}
use not_only_mining_pool.Storage.Redis.{
  FloatText, Value, string, entries, text_of, Command, on, incr, zadd, written, Redis, exec_all,
  place, without,
}
use not_only_mining_pool.Storage.Redis.After.{
  after_all, after_all-append, after_all-else, after-on, value-exec_all,
}
use not_only_mining_pool.Storage.Keys.{apart, shares_seq, pplns_log}
use not_only_mining_pool.Storage.Shares.{
  Storage, log_member, incr_reply, index_writes, log_writes, credit_writes, found_writes,
  valid_writes, put_error, put_share_now, share_writer,
}
use not_only_mining_pool.Storage.Shares.Log.{
  InLog, place-without, IsScored, Counts, entries-zadd, incr-Counts, incr_reply-format_int, tail_of,
  tail_of-log_member,
}
use not_only_mining_pool.Storage.Payouts.Paid.{All-append}
use not_only_mining_pool.Storage.Shares.Beside.{
  Beside, log-Beside, seq-Beside, index_writes-Misses, refused-Misses, tail-Misses,
}

InLog-suc : (n : ℕ) (l : List (Bytes × ℕ)) → InLog n l → InLog (n + 1) l
InLog-suc n [] i = tt
InLog-suc n (e ∷ l) i = ((omega (arith, i.0.0), i.0.1), InLog-suc n l i.1)

module _ {fl : Float64} (texts : FloatText fl) (s : Storage) where
  module _ (add_float : Bytes → Bytes → Option Bytes) (pps : s.pps_mode ≡ true) where
    entry : Share fl → ℕ → Command
    entry share seq =
        on (pplns_log s.coin) (zadd seq (log_member share.miner (texts.format share.diff) seq))

    only_entry : (share : Share fl) (seq : ℕ) → log_writes texts s share seq ≡ entry share seq ∷ []
    unfolding log_writes entry
    only_entry share seq = rw pps refl

    -- The pipeline of a valid share at a key that only its entry may name.
    valid_writes-at :
        (j : Bytes) (share : Share fl) (accepted : Bool) (seq now : ℕ) (m : Bytes → Value)
        → Beside texts s j
        → after_all add_float (valid_writes texts s share accepted seq now) m j
          ≡ after_all add_float
              (entry share seq ∷ [])
              (after_all add_float (index_writes texts s share) m)
              j
    unfolding valid_writes
    valid_writes-at j share accepted seq now m b =
        let tail : List Command =
          credit_writes texts s share now
          ++ found_writes texts s share.block_hex share accepted seq in
        ap (λ g. g j)
          (after_all-append add_float (index_writes texts s share)
              (log_writes texts s share seq ++ tail) m
            ∙ after_all-append add_float (log_writes texts s share seq) tail
                (after_all add_float (index_writes texts s share) m))
        ∙ after_all-else add_float tail j _ (tail-Misses texts s j share accepted seq now b)
        ∙ ap (λ cs. after_all add_float cs (after_all add_float (index_writes texts s share) m) j)
            (only_entry share seq)

    valid_writes-log :
        (share : Share fl) (accepted : Bool) (seq now : ℕ) (m : Bytes → Value)
        → after_all add_float (valid_writes texts s share accepted seq now) m (pplns_log s.coin)
          ≡ written add_float
              (zadd seq (log_member share.miner (texts.format share.diff) seq))
              (m (pplns_log s.coin))
    unfolding after_all entry
    valid_writes-log share accepted seq now m =
        valid_writes-at (pplns_log s.coin) share accepted seq now m (log-Beside texts s)
        ∙ after-on add_float (pplns_log s.coin) _
            (after_all add_float (index_writes texts s share) m)
        ∙ ap (written add_float (zadd seq (log_member share.miner (texts.format share.diff) seq))) (
            after_all-else add_float (index_writes texts s share) (pplns_log s.coin) m
              (index_writes-Misses texts s (pplns_log s.coin) share (log-Beside texts s)))

    valid_writes-seq :
        (share : Share fl) (accepted : Bool) (seq now : ℕ) (m : Bytes → Value)
        → after_all add_float (valid_writes texts s share accepted seq now) m (shares_seq s.coin)
          ≡ m (shares_seq s.coin)
    unfolding entry text_eq
    valid_writes-seq share accepted seq now m =
        valid_writes-at (shares_seq s.coin) share accepted seq now m (seq-Beside texts s)
        ∙ after_all-else add_float (entry share seq ∷ []) (shares_seq s.coin) _
            (apart s.coin _ _ refl, tt)
        ∙ after_all-else add_float (index_writes texts s share) (shares_seq s.coin) m
            (index_writes-Misses texts s (shares_seq s.coin) share (seq-Beside texts s))

  -- The entries of the valid shares of a queue, behind `n` shares, and how many there are then.
  unfoldable pub logged_as : Option ShareError → Share fl → ℕ → List (Bytes × ℕ)
  logged_as none share n = (log_member share.miner (texts.format share.diff) (n + 1), n + 1) ∷ []
  logged_as (some e) share n = []

  unfoldable pub counted_as : Option ShareError → ℕ → ℕ
  counted_as none n = n + 1
  counted_as (some e) n = n

  unfoldable pub logged : ℕ → List (Share fl × Bool × ℕ) → List (Bytes × ℕ)
  logged n [] = []
  logged n ((share, accepted, now) ∷ jobs) =
      logged_as share.error share n ++ logged (counted_as share.error n) jobs

  unfoldable pub counted : ℕ → List (Share fl × Bool × ℕ) → ℕ
  counted n [] = n
  counted n ((share, accepted, now) ∷ jobs) = counted (counted_as share.error n) jobs

  -- The log of a database with `n` shares counted.
  pub record Logged (redis : Redis) (db : redis.Db) (n : ℕ) (l : List (Bytes × ℕ)) : Type 0 where
    pub counts : Counts n (redis.value db (shares_seq s.coin))
    pub is_scored : IsScored (redis.value db (pplns_log s.coin))
    pub lists : entries (redis.value db (pplns_log s.coin)) ≡ l
    pub in_log : InLog n l

  module _ (redis : Redis) (pps : s.pps_mode ≡ true) where
    put_valid-Logged :
        (share : Share fl) (accepted : Bool) (now : ℕ) (db : redis.Db) (n : ℕ)
        (l : List (Bytes × ℕ))
        → n + 1 < 2 ^ 63
        → Logged redis db n l
        → Logged redis
            (put_error texts s redis none share accepted now db)
            (n + 1)
            (l ++ ((log_member share.miner (texts.format share.diff) (n + 1), n + 1) ∷ []))
    unfolding put_error text_eq after_all
    put_valid-Logged share accepted now db n l b g =
        let counted : redis.Db = redis.exec (on (shares_seq s.coin) incr) db in
        let member : Bytes = log_member share.miner (texts.format share.diff) (n + 1) in
        let ends : tail_of member ≡ some (format_int (plus (n + 1))) =
          tail_of-log_member share.miner (texts.format share.diff) (n + 1) in
        let count : redis.value counted (shares_seq s.coin) ≡ string (format_int (plus (n + 1))) =
          ap (λ g. g (shares_seq s.coin)) (redis.value-exec _ db)
          ∙ after-on redis.add_float (shares_seq s.coin) incr (redis.value db)
          ∙ incr-Counts redis.add_float n _ b g.counts in
        let reply : incr_reply (text_of (redis.value counted (shares_seq s.coin))) ≡ n + 1 =
          ap (λ v. incr_reply (text_of v)) count ∙ incr_reply-format_int (n + 1) b in
        let same_log : redis.value counted (pplns_log s.coin) ≡ redis.value db (pplns_log s.coin) =
          ap (λ g. g (pplns_log s.coin)) (redis.value-exec _ db)
          ∙ after_all-else redis.add_float (on (shares_seq s.coin) incr ∷ []) (pplns_log s.coin)
              (redis.value db) (apart s.coin _ _ refl, tt) in
        let writes : List Command = valid_writes texts s share accepted (n + 1) now in
        let at_log : redis.value (exec_all redis writes counted) (pplns_log s.coin)
            ≡ written redis.add_float (zadd (n + 1) member) (redis.value db (pplns_log s.coin)) =
          ap (λ g. g (pplns_log s.coin)) (value-exec_all redis writes counted)
          ∙ valid_writes-log redis.add_float pps share accepted (n + 1) now (redis.value counted)
          ∙ ap (written redis.add_float (zadd (n + 1) member)) same_log in
        let placed = entries-zadd redis.add_float (n + 1) member _ g.is_scored in
        rw reply (record {
          counts = inr (
              ap (λ g. g (shares_seq s.coin)) (value-exec_all redis writes counted)
              ∙ valid_writes-seq redis.add_float pps share accepted (n + 1) now
                  (redis.value counted)
              ∙ count);
          is_scored = subst IsScored (sym at_log) placed.0;
          lists =
              ap entries at_log
              ∙ placed.1
              ∙ ap (λ r. place (n + 1) member (without member r)) g.lists
              ∙ place-without member n l b ends g.in_log;
          in_log = All-append _ l _ (InLog-suc n l g.in_log) ((omega arith, ends), tt);
        })

    put_invalid-Logged :
        (e : ShareError) (share : Share fl) (accepted : Bool) (now : ℕ) (db : redis.Db) (n : ℕ)
        (l : List (Bytes × ℕ))
        → Logged redis db n l
        → Logged redis (put_error texts s redis (some e) share accepted now db) n l
    unfolding put_error
    put_invalid-Logged e share accepted now db n l g =
        let same : (j : Bytes)
            → Beside texts s j
            → redis.value (put_error texts s redis (some e) share accepted now db) j
              ≡ redis.value db j =
          λ j b.
            ap (λ g. g j) (value-exec_all redis _ db)
            ∙ after_all-else redis.add_float _ j (redis.value db)
                (refused-Misses texts s j share accepted b) in
        record {
          counts = subst (Counts n) (sym (same (shares_seq s.coin) (seq-Beside texts s))) g.counts;
          is_scored =
              subst IsScored (sym (same (pplns_log s.coin) (log-Beside texts s))) g.is_scored;
          lists = ap entries (same (pplns_log s.coin) (log-Beside texts s)) ∙ g.lists;
          in_log = g.in_log;
        }

    put_error-Logged :
        (o : Option ShareError) (share : Share fl) (accepted : Bool) (now : ℕ) (db : redis.Db)
        (n : ℕ) (l : List (Bytes × ℕ))
        → n + 1 < 2 ^ 63
        → Logged redis db n l
        → Logged redis
            (put_error texts s redis o share accepted now db)
            (counted_as o n)
            (l ++ logged_as o share n)
    unfolding counted_as logged_as
    put_error-Logged none share accepted now db n l b g =
        put_valid-Logged share accepted now db n l b g
    put_error-Logged (some e) share accepted now db n l b g =
        let same : l ++ [] ≡ l = append-nil l in
        rw same (put_invalid-Logged e share accepted now db n l g)

    counted_as-bound : (o : Option ShareError) (n : ℕ) → counted_as o n ≤ n + 1
    unfolding counted_as
    counted_as-bound none n = omega arith
    counted_as-bound (some e) n = omega arith

    -- In the pps mode the share writer appends the valid shares of its queue to the log, in their order,
    -- each under the next number, and drops nothing.
    pub share_writer-Logged :
        (jobs : List (Share fl × Bool × ℕ)) (db : redis.Db) (n : ℕ) (l : List (Bytes × ℕ))
        → n + length jobs < 2 ^ 63
        → Logged redis db n l
        → Logged redis (share_writer texts s redis jobs db) (counted n jobs) (l ++ logged n jobs)
    unfolding share_writer put_share_now counted logged
    share_writer-Logged [] db n l b g = rw (append-nil l) g
    share_writer-Logged ((share, accepted, now) ∷ jobs) db n l b g =
        let next = put_error-Logged share.error share accepted now db n l (omega arith) g in
        let e : l ++ (logged_as share.error share n ++ logged (counted_as share.error n) jobs)
            ≡ (l ++ logged_as share.error share n) ++ logged (counted_as share.error n) jobs =
          simp append_assoc in
        rw e (
          share_writer-Logged jobs _ (counted_as share.error n) _
            (omega (arith, counted_as-bound share.error n)) next)
