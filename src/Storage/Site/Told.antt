-- ===== src/Storage/Site/Told.antt =====
-- storage/redis.go: what the reads of a payout run are told of the database.
use not_only_mining_pool.Common.{
  ℕ, ◌≡◌, refl, sym, ◌∙◌, ap, ◌⊎◌, inl, inr, true, Option, none, some, List, [], ◌∷◌, ◌++◌, Bytes,
  Bool-cases, codes, plus, text_eq_iff, subst,
}
use not_only_mining_pool.Common.Texts.{text_eq}
use not_only_mining_pool.Common.Dict.{Dict, Distinct, lookup, insert, lookup-insert}
use not_only_mining_pool.Common.Decimal.{format_uint}
use not_only_mining_pool.Common.Fallible.{>>=-eq-some}
use not_only_mining_pool.Common.Float.{Float64}
use not_only_mining_pool.Utils.Search.{contains}
use not_only_mining_pool.Storage.Types.{PendingBlock}
use not_only_mining_pool.Storage.Block.{new_pending_block_from_string}
use not_only_mining_pool.Storage.Redis.{FloatText, Value, field, is_member, text_of, Redis}
use not_only_mining_pool.Storage.Keys.{balances_key, round_at, blocks_pending}
use not_only_mining_pool.Storage.Shares.{Storage}
use not_only_mining_pool.Storage.Reads.{
  parse_loop, parse_blocks, get_round_contrib, get_all_miner_balances, get_all_pending_blocks,
  get_pps_cursor, cursor_of,
}
use not_only_mining_pool.Storage.Payouts.{Json}
use not_only_mining_pool.Storage.Site.{
  Site, AnswersFields, AnswersMembers, AnswersCursor, Serves, Served, returns, fails, crashes,
  calls,
}
use not_only_mining_pool.Payments.Prog
use not_only_mining_pool.Payments.Prog.{Result, ok, err, Call, Reply, Prog}
use not_only_mining_pool.Payments.World.{Outcome}

abbrev pub Among : PendingBlock → List PendingBlock → Type 0
Among b [] = ⊥
Among b (c ∷ cs) = (b ≡ c) ⊎ Among b cs

-- Each of the texts is read, and its block is in the list.
parse_blocks-Among :
    (l : List Bytes) (bs : List PendingBlock) (x : Bytes)
    → parse_blocks l ≡ some bs
    → contains x l ≡ true
    → (b : PendingBlock) × (new_pending_block_from_string x ≡ some b) × Among b bs
unfolding parse_blocks contains
parse_blocks-Among [] bs x e h = cc
parse_blocks-Among (str ∷ strs) bs x e h =
    let (block, read, rest) = >>=-eq-some (new_pending_block_from_string str) _ e in
    let (blocks, later, last) = >>=-eq-some (parse_blocks strs) _ rest in
    let same : block ∷ blocks ≡ bs = cc in
    elim (Bool-cases (text_eq x str)) [
      | inl here ↦
          let eq : x ≡ str = (text_eq_iff x str).0 here in
          (block, ap new_pending_block_from_string eq ∙ read, subst (Among block) same (inl refl))
      | inr there ↦
          let (b, r, among) = parse_blocks-Among strs blocks x later (rw there at h) in
          (b, r, subst (Among b) same (inr among))
    ]

module _ {fl : Float64} (texts : FloatText fl) where
  open fl use {F}

  -- The number of a text, and of no text another one.
  abbrev pub number_or : Option F → Option Bytes → Option F
  number_or x none = x
  number_or x (some t) = texts.parse t

  parse_loop-lookup :
      (out : Dict F) (m : Dict Bytes) (r : Dict F) (a : Bytes)
      → Distinct m
      → parse_loop texts out m ≡ some r
      → lookup a r ≡ number_or (lookup a out) (lookup a m)
  unfolding parse_loop lookup
  parse_loop-lookup out [] r a d e = let same : out ≡ r = cc in ap (lookup a) (sym same)
  parse_loop-lookup out ((k, t) ∷ m) r a d e =
      let (x, parsed, rest) = >>=-eq-some (texts.parse t) _ e in
      let ih = parse_loop-lookup (insert k x out) m r a d.1 rest in
      elim (Bool-cases (text_eq k a)) [
        | inl same ↦
            let alone : lookup a m ≡ none =
              subst (λ b. lookup b m ≡ none) ((text_eq_iff k a).0 same) d.0 in
            rw same (
              ih
              ∙ ap (number_or (lookup a (insert k x out))) alone
              ∙ lookup-insert k a x out
              ∙ rw same (sym parsed))
        | inr other ↦
            rw other
              (ih ∙ ap (λ o. number_or o (lookup a m)) (lookup-insert k a x out ∙ rw other refl))
      ]

module _ {fl : Float64} (redis : Redis) (texts : FloatText fl) (json : Json fl) (s : Storage) where
  open fl use {F}

  abbrev pub ToldNumbers : Result (Dict F) → Value → Type 0
  ToldNumbers (ok m) v = (a : Bytes) → lookup a m ≡ number_or texts none (field v a)
  ToldNumbers (err e) v = Unit {0}

  abbrev pub ToldBlocks : Result (List PendingBlock) → Value → Type 0
  ToldBlocks (ok bs) v =
      (x : Bytes)
      → is_member v x ≡ true
      → (b : PendingBlock) × (new_pending_block_from_string x ≡ some b) × Among b bs
  ToldBlocks (err e) v = Unit {0}

  abbrev pub ToldCursor : Result ℕ → Value → Type 0
  ToldCursor (ok n) v = cursor_of (text_of v) ≡ some (plus n)
  ToldCursor (err e) v = Unit {0}

  -- What a reply to a read says of the database.
  abbrev pub Told : Site fl redis → (c : Call fl) → Reply fl c → Type 0
  Told x Prog.get_all_miner_balances r =
      ToldNumbers r (redis.value x.db (s.coin ++ codes ":balances"))
  Told x (Prog.get_round_contrib h) r =
      ToldNumbers r (redis.value x.db (s.coin ++ (codes ":shares:round" ++ format_uint h)))
  Told x Prog.get_all_pending_blocks r =
      ToldBlocks r (redis.value x.db (s.coin ++ codes ":blocks:pending"))
  Told x Prog.get_pps_cursor r = ToldCursor r (redis.value x.db (s.coin ++ codes ":pps:cursor"))
  Told x c r = Unit {0}

  -- All replies of a run.
  abbrev pub ToldAll :
      {A : Type 0} {p : Prog fl A} {x y : Site fl redis} {o : Outcome A}
      → Served redis texts json s p x o y
      → Type 0
  ToldAll returns = Unit {0}
  ToldAll fails = Unit {0}
  ToldAll crashes = Unit {0}
  ToldAll (calls {c = c} {x = x} r st rest) = Told x c r × ToldAll rest

  told_numbers :
      (r : Result (Dict F)) (k : Bytes) (db : redis.Db)
      (read : (Bytes → Dict Bytes) → Option (Dict F))
      → ((g : Bytes → Dict Bytes) → read g ≡ parse_loop texts [] (g k))
      → AnswersFields redis texts json s r db read
      → ToldNumbers r (redis.value db k)
  unfolding lookup
  told_numbers (ok m) k db read same (g, lists, e) = λ a.
      parse_loop-lookup texts [] (g k) m a (lists k).0 (sym (same g) ∙ e)
      ∙ ap (number_or texts none) ((lists k).1 a)
  told_numbers (err e) k db read same h = tt

  told_blocks :
      (r : Result (List PendingBlock)) (db : redis.Db)
      → AnswersMembers redis texts json s r db (get_all_pending_blocks s)
      → ToldBlocks r (redis.value db (blocks_pending s.coin))
  unfolding get_all_pending_blocks
  told_blocks (ok bs) db (g, lists, e) = λ x h.
      parse_blocks-Among (g (blocks_pending s.coin)) bs x e (lists (blocks_pending s.coin) x ∙ h)
  told_blocks (err e) db h = tt

  told_cursor :
      (r : Result ℕ) (db : redis.Db)
      → AnswersCursor redis texts json s r db
      → ToldCursor r (redis.value db (s.coin ++ codes ":pps:cursor"))
  unfolding get_pps_cursor
  told_cursor (ok n) db h = h
  told_cursor (err e) db h = tt

  pub Serves-Told :
      (c : Call fl) (r : Reply fl c) (x y : Site fl redis)
      → Serves redis texts json s x c r y
      → Told x c r
  unfolding get_all_miner_balances get_round_contrib
  Serves-Told Prog.get_all_miner_balances r x y e =
      told_numbers r (balances_key s.coin) x.db (get_all_miner_balances texts s) (λ g. refl) e.1
  Serves-Told (Prog.get_round_contrib h) r x y e =
      told_numbers r (round_at s.coin (format_uint h)) x.db (λ g. get_round_contrib texts s g h)
        (λ g. refl) e.1
  Serves-Told Prog.get_all_pending_blocks r x y e = told_blocks r x.db e.1
  Serves-Told Prog.get_pps_cursor r x y e = told_cursor r x.db e.1
  Serves-Told Prog.get_payout_intent r x y e = tt
  Serves-Told (Prog.put_payout_intent u) r x y e = tt
  Serves-Told (Prog.set_payout_intent_txid t) r x y e = tt
  Serves-Told Prog.del_payout_intent r x y e = tt
  Serves-Told (Prog.apply_payments u) r x y e = tt
  Serves-Told (Prog.get_pplns_shares m n) r x y e = tt
  Serves-Told (Prog.get_shares_since c) r x y e = tt
  Serves-Told (Prog.get_transaction t) r x y e = tt
  Serves-Told (Prog.get_block h) r x y e = tt
  Serves-Told (Prog.check_address a) r x y e = tt
  Serves-Told (Prog.send_many m) r x y e = tt
